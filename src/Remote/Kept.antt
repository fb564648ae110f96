-- ===== src/Remote/Kept.antt =====
-- Talking to other daemons changes nothing of a daemon but its network and its table of connections.
use vpfs_iroh.Base.{
  Str, str_eq, Bool, true, false, Option, none, some, List, Outcome, ok, panicked, unfinished, Exec,
  after, pure, ◌>>=◌, ◌≡◌, refl, ◌∙◌, if-elim, panic,
}
use vpfs_iroh.Messages.{HelloResponse, DaemonResponse, address_for}
use vpfs_iroh.Lru.{lookup, touch}
use vpfs_iroh.Codec.{Codec}
use vpfs_iroh.Files.{Bytes}
use vpfs_iroh.Platform.{Platform}
use vpfs_iroh.State.{DaemonState}
use vpfs_iroh.Wire.{on_net, if_written, receive_payload, send_message, receive_message}
use vpfs_iroh.Remote.{
  same_node, greeted, greet, open_and_greet, establish_connection, remember, remembered,
  connect_known, connect_answer, ask_on, ask_over, ask_root, or_ask_root, connect_new, stream_for,
}

module _ (P : Platform) where
  -- What the daemon has besides its network and its connections.
  pub record IsKept (s s' : DaemonState P) : Type 0 where
    pub root : s'.root ≡ s.root
    pub local : s'.local ≡ s.local
    pub cache : s'.cache ≡ s.cache
    pub max_cache_size : s'.max_cache_size ≡ s.max_cache_size
    pub used_cache_bytes : s'.used_cache_bytes ≡ s.used_cache_bytes
    pub disk : s'.disk ≡ s.disk

  pub IsKept-same : (s : DaemonState P) → IsKept s s
  IsKept-same s = record {
    root = refl;
    local = refl;
    cache = refl;
    max_cache_size = refl;
    used_cache_bytes = refl;
    disk = refl;
  }

  -- Other connections, and another state of the network.
  pub IsKept-record :
      (s : DaemonState P) (connections : List (Str × P.Connection)) (net : P.Net)
      → IsKept s (record s { connections = connections; net = net })
  IsKept-record s connections net = record {
    root = refl;
    local = refl;
    cache = refl;
    max_cache_size = refl;
    used_cache_bytes = refl;
    disk = refl;
  }

  pub IsKept-trans : (s t u : DaemonState P) → IsKept s t → IsKept t u → IsKept s u
  IsKept-trans s t u a b = record {
    root = b.root ∙ a.root;
    local = b.local ∙ a.local;
    cache = b.cache ∙ a.cache;
    max_cache_size = b.max_cache_size ∙ a.max_cache_size;
    used_cache_bytes = b.used_cache_bytes ∙ a.used_cache_bytes;
    disk = b.disk ∙ a.disk;
  }

  -- A split on an option.
  IsKept-elim :
      {A B : Type 0} (s : DaemonState P) (o : Option A) (n : Outcome B × DaemonState P)
      (f : A → Outcome B × DaemonState P)
      → IsKept s n.1
      → ((a : A) → IsKept s (f a).1)
      → IsKept s (elim o as (λ x. Outcome B × DaemonState P) [ none ↦ n | some a ↦ f a ]).1
  IsKept-elim s none n f kn kf = kn
  IsKept-elim s (some a) n f kn kf = kf a

  -- The operation keeps them, whatever its outcome.
  pub record Keeps {A : Type 0} (m : Exec (DaemonState P) A) : Type 0 where
    pub from : (s : DaemonState P) → IsKept s (m s).1

  after-Keeps :
      {A B : Type 0} (f : A → Exec (DaemonState P) B) (s : DaemonState P)
      (r : Outcome A × DaemonState P)
      → IsKept s r.1
      → ((a : A) → Keeps (f a))
      → IsKept s (after f r).1
  after-Keeps f s (ok a, t) k h = IsKept-trans s t (f a t).1 k ((h a).from t)
  after-Keeps f s (panicked, t) k h = k
  after-Keeps f s (unfinished, t) k h = k

  Keeps-bind :
      {A B : Type 0} {m : Exec (DaemonState P) A} {f : A → Exec (DaemonState P) B}
      → Keeps m
      → ((a : A) → Keeps (f a))
      → Keeps (m >>= f)
  Keeps-bind {m} {f} k h = record { from = λ s. after-Keeps f s (m s) (k.from s) h }

  Keeps-pure : {A : Type 0} (a : A) → Keeps (pure a)
  Keeps-pure a = record { from = IsKept-same }

  Keeps-panic : {A : Type 0} → Keeps (panic {A = A})
  Keeps-panic = record { from = IsKept-same }

  pub on_net-Keeps : {A : Type 0} (f : P.Net → A × P.Net) → Keeps (on_net P f)
  on_net-Keeps f = record { from = λ s. IsKept-record s s.connections (f s.net).1 }

  ruleset keeping = (Keeps-bind, Keeps-pure, Keeps-panic, on_net-Keeps)

  if_written-Keeps :
      (written : Bool) {m : Exec (DaemonState P) Bool} → Keeps m → Keeps (if_written P written m)
  if_written-Keeps true k = k
  if_written-Keeps false k = Keeps-pure false

  pub send_message-Keeps :
      {A : Type 0} (codec : Codec A) (stream : P.Stream) (message : A)
      → Keeps (send_message P codec stream message)
  unfolding send_message
  send_message-Keeps codec stream message = search (keeping, if_written-Keeps)

  receive_payload-Keeps :
      {A : Type 0} (codec : Codec A) (stream : P.Stream) (size : Option Bytes)
      → Keeps (receive_payload P codec stream size)
  receive_payload-Keeps codec stream none = search keeping
  receive_payload-Keeps codec stream (some size) = search keeping

  pub receive_message-Keeps :
      {A : Type 0} (codec : Codec A) (stream : P.Stream) → Keeps (receive_message P codec stream)
  unfolding receive_message
  receive_message-Keeps codec stream = search (keeping, receive_payload-Keeps)

  ruleset talking = (keeping, send_message-Keeps, receive_message-Keeps)

  greeted-Keeps :
      (connection : P.Connection) (response : Option (HelloResponse P.PublicKey))
      → Keeps (greeted P connection response)
  greeted-Keeps connection none = search keeping
  greeted-Keeps connection (some _) = search keeping

  greet-Keeps :
      (connection : P.Connection) (stream : Option P.Stream) → Keeps (greet P connection stream)
  greet-Keeps connection none = search keeping
  greet-Keeps connection (some stream) = search (talking, greeted-Keeps)

  open_and_greet-Keeps : (connection : Option P.Connection) → Keeps (open_and_greet P connection)
  open_and_greet-Keeps none = search keeping
  open_and_greet-Keeps (some connection) = search (keeping, greet-Keeps)

  establish_connection-Keeps : (id : P.PublicKey) → Keeps (establish_connection P id)
  unfolding establish_connection
  establish_connection-Keeps id = search (keeping, open_and_greet-Keeps)

  remember-Keeps : (name : Str) (connection : P.Connection) → Keeps (remember P name connection)
  remember-Keeps name connection = record {
    from = λ s. IsKept-record s (touch name connection s.connections) s.net;
  }

  remembered-Keeps :
      (name : Str) (connection : Option P.Connection) → Keeps (remembered P name connection)
  remembered-Keeps name none = search keeping
  remembered-Keeps name (some connection) = remember-Keeps name connection

  connect_known-Keeps : (name : Str) (id : Option P.PublicKey) → Keeps (connect_known P name id)
  connect_known-Keeps name none = search keeping
  connect_known-Keeps name (some id) =
      search (keeping, establish_connection-Keeps, remembered-Keeps)

  connect_answer-Keeps :
      (name : Str) (answer : Option (DaemonResponse P.PublicKey))
      → Keeps (connect_answer P name answer)
  connect_answer-Keeps name none = search keeping
  connect_answer-Keeps name (some (address_for (some id))) = connect_known-Keeps name (some id)
  connect_answer-Keeps name (some (address_for none)) = search keeping
  connect_answer-Keeps name (some (DaemonResponse.place uri)) = search keeping
  connect_answer-Keeps name (some (DaemonResponse.read r)) = search keeping
  connect_answer-Keeps name (some (DaemonResponse.write r)) = search keeping
  connect_answer-Keeps name (some (DaemonResponse.remove r)) = search keeping
  connect_answer-Keeps name (some (DaemonResponse.append_directory_entry r)) = search keeping

  ask_on-Keeps : (name : Str) (stream : Option P.Stream) → Keeps (ask_on P name stream)
  ask_on-Keeps name none = search keeping
  ask_on-Keeps name (some stream) = search (talking, connect_answer-Keeps)

  ask_over-Keeps :
      (name : Str) (connection : Option P.Connection) → Keeps (ask_over P name connection)
  ask_over-Keeps name none = search keeping
  ask_over-Keeps name (some connection) = search (keeping, ask_on-Keeps)

  ask_root-Keeps : (name : Str) → Keeps (ask_root P name)
  unfolding ask_root
  ask_root-Keeps name = record {
    from = λ s.
        IsKept-elim s s.root (ok none, s) _ (IsKept-same s)
          (λ root.
            if-elim (λ (r : Outcome (Option P.Connection) × DaemonState P). IsKept s r.1)
              (same_node P s.local root) (λ same. IsKept-same s)
              (λ other. (ask_over-Keeps name (lookup root.name s.connections)).from s));
  }

  or_ask_root-Keeps :
      (name : Str) (connection : Option P.Connection) → Keeps (or_ask_root P name connection)
  or_ask_root-Keeps name none = ask_root-Keeps name
  or_ask_root-Keeps name (some connection) = search keeping

  connect_known_or_ask-Keeps :
      (name : Str) (id : Option P.PublicKey)
      → Keeps (connect_known P name id >>= or_ask_root P name)
  connect_known_or_ask-Keeps name id = search (keeping, connect_known-Keeps, or_ask_root-Keeps)

  connect_new-Keeps : (name : Str) → Keeps (connect_new P name)
  connect_new-Keeps name = record {
    from = λ s.
        IsKept-elim s s.known_hosts (panicked, s) _ (IsKept-same s)
          (λ hosts. (connect_known_or_ask-Keeps name (lookup name hosts)).from s);
  }

  pub stream_for-Keeps : (name : Str) → Keeps (stream_for P name)
  unfolding stream_for
  stream_for-Keeps name = record {
    from = λ s.
        IsKept-elim s (lookup name s.connections) _ _ ((connect_new-Keeps name).from s)
          (λ connection. IsKept-same s);
  }
