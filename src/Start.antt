-- ===== src/Start.antt =====
-- daemon.rs: the start of a daemon in `main`, up to the server for clients, for a daemon whose
-- endpoint is online.
use vpfs_iroh.Base.{
  ℕ, Str, lit, str_eq, Bool, true, false, Option, none, some, [], Outcome, ok, Exec, pure, modify,
  ◌>>=◌, ◌>>◌,
}
use vpfs_iroh.Messages.{DirectoryEntry, Hello, HelloResponse}
use vpfs_iroh.Files.{Disk, put_file}
use vpfs_iroh.Directory.{append_dir_entry}
use vpfs_iroh.Lru.{touch}
use vpfs_iroh.Platform.{Platform}
use vpfs_iroh.State.{DaemonState, Node, on_disk}
use vpfs_iroh.Cache.{restore_cache, set_disk}
use vpfs_iroh.Wire.{on_net, send_message, receive_message}

module _ (P : Platform) where
  -- The options that the state depends on.
  pub record Opt : Type 0 where
    pub root_id : Option P.PublicKey
    pub cache_size : ℕ
    pub name : Str

  -- The node that a daemon takes for the root at first.
  abbrev pub first_root : Option P.PublicKey → Node P → Node P
  first_root none local = local
  first_root (some root_id) local = record { name = lit "root"; endpoint_id = root_id }

  unfoldable pub initial_state : Opt → P.PublicKey → Disk → P.Net → DaemonState P
  initial_state opt endpoint_id disk net =
      let local : Node P = record { name = opt.name; endpoint_id = endpoint_id } in
      record {
        root = some (first_root opt.root_id local);
        local = local;
        connections = [];
        known_hosts = none;
        cache = P.lru.unbounded;
        max_cache_size = opt.cache_size;
        used_cache_bytes = 0;
        disk = disk;
        net = net;
      }

  abbrev pub self_link : DaemonState P → Str → DirectoryEntry
  self_link s name = record {
    location = record { node_name = s.local.name; uri = lit "root" };
    name = name;
    is_dir = true;
  }

  -- What the appends return is not looked at.
  abbrev add_self_links : Exec (DaemonState P) (Unit {0})
  add_self_links s =
      (do
        dot ← on_disk P (append_dir_entry P.entry_codec (lit "root") (self_link s (lit ".")))
        dot_dot ← on_disk P (append_dir_entry P.entry_codec (lit "root") (self_link s (lit "..")))
        pure tt)
        s

  abbrev create_root : Exec (DaemonState P) (Unit {0})
  create_root s = elim (s.disk.files (lit "root")) [
    | some _ ↦ (ok tt, s)
    | none ↦ add_self_links (set_disk P (put_file (lit "root") [] s.disk) s)
  ]

  -- The part of a daemon that is given no root.
  unfoldable pub become_root : Exec (DaemonState P) (Unit {0})
  become_root = do modify (λ s. record s { known_hosts = some [] }); create_root

  abbrev learn : P.PublicKey → Option (HelloResponse P.PublicKey) → Exec (DaemonState P) Bool
  learn remote_id (some (HelloResponse.root_hello root_node host_names)) s = (
    ok true,
    record s {
      root = some root_node;
      known_hosts = some (touch root_node.name remote_id host_names);
    },
  )
  learn remote_id _ s = (ok true, s)

  abbrev after_hello : P.PublicKey → P.Stream → Bool → Exec (DaemonState P) Bool
  after_hello remote_id stream false = pure false
  after_hello remote_id stream true = do
    response ← receive_message P P.hello_response_codec stream
    learn remote_id response

  abbrev say_hello : P.PublicKey → Option P.Stream → Exec (DaemonState P) Bool
  say_hello remote_id none = pure true
  say_hello remote_id (some stream) = λ s.
      (do
        sent ← send_message P P.hello_codec stream (Hello.root_hello s.local)
        after_hello remote_id stream sent)
        s

  abbrev join_over : P.PublicKey → Option P.Connection → Exec (DaemonState P) Bool
  join_over remote_id none = pure true
  join_over remote_id (some connection) = do
    stream ← on_net P (P.open_bi connection)
    say_hello remote_id stream

  -- The part of a daemon that is given a root; `false` where `main` ends.
  unfoldable pub join_root : P.PublicKey → Exec (DaemonState P) Bool
  join_root remote_id = do
    connection ← on_net P (P.connect remote_id)
    join_over remote_id connection

  abbrev take_role : Option P.PublicKey → Exec (DaemonState P) Bool
  take_role none = do become_root; pure true
  take_role (some remote_id) = join_root remote_id

  -- The result tells whether the daemon goes on to serve clients.
  unfoldable pub start : Opt → P.PublicKey → Disk → P.Net → Outcome Bool × DaemonState P
  unfolding initial_state
  start opt endpoint_id disk net =
      (do restore_cache P; take_role opt.root_id) (initial_state opt endpoint_id disk net)
