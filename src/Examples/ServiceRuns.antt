-- ===== src/Examples/ServiceRuns.antt =====
-- The root daemon of FindRuns serves a client, and a root daemon starts.
use vpfs_iroh.Base.{
  ◌≤◌, Str, lit, str_eq, true, none, some, List, List-cases, [], ◌∷◌, length, ◌≡◌, ◌⊎◌, inl, inr,
  refl, sym, ap, subst, arith, ok, success,
}
use vpfs_iroh.Messages.{DirectoryEntry, ClientRequest}
use vpfs_iroh.Text.{split, contains}
use vpfs_iroh.Files.{Bytes}
use vpfs_iroh.Directory.Search.{find_entry, encode}
use vpfs_iroh.State.{DaemonState}
use vpfs_iroh.Find.Local.{Tree}
use vpfs_iroh.Place.{place_file}
use vpfs_iroh.Service.{Session}
use vpfs_iroh.Start.{Opt, start}
use vpfs_iroh.Client.{store, fetch}
use vpfs_iroh.Client.Dialogue.{serving, quiet, IsServable}
use vpfs_iroh.Client.Stored.{store-fetch}
use vpfs_iroh.Alone.{IsPlaced, IsWhole}
use vpfs_iroh.Alone.Parents.{below}
use vpfs_iroh.Alone.Appends.{EndsWhole}
use vpfs_iroh.Alone.Places.{place_file-EndsWhole}
use vpfs_iroh.Alone.Replies.{IsAnswered}
use vpfs_iroh.Alone.Requests.{handle_client_request-IsAnswered}
use vpfs_iroh.Alone.Serving.{IsTalk, done, more, IsServed, handle_client-IsServed}
use vpfs_iroh.Alone.Starts.{root_links, start-IsWhole}
use vpfs_iroh.Examples.Codecs.{entry_codec, entry_codec-IsLawful}
use vpfs_iroh.Examples.ClientCodecs.{
  client_request_codec, client_request_codec-IsLawful, client_response_codec-IsLawful,
}
use vpfs_iroh.Examples.World.{offline, entry_of, blank, plain}
use vpfs_iroh.Examples.FindRuns.{
  plan_bytes, tree, tree-cases, docs, docs_entries, top_entries, with_tree, with_tree-IsLocalTree,
}
use vpfs_iroh.Examples.PlaceRuns.{drawn_disk, drawn_zero}

tree-IsPlaced :
    (name : Str) (entries : List DirectoryEntry) (entry : DirectoryEntry)
    → (entries ≡ top_entries) ⊎ (entries ≡ docs_entries)
    → find_entry name entries ≡ some entry
    → IsPlaced offline tree with_tree entry
tree-IsPlaced name entries entry (inl e) found =
    let is_docs : entry ≡ docs = ground arith in
    subst (IsPlaced offline tree with_tree) (sym is_docs) (record {
      here = refl;
      present = (plain (encode entry_codec docs_entries), (unfold str_eq in refl));
      below = λ _. (docs_entries, (unfold str_eq in refl));
      apart = λ plain. absurd cc;
    })
tree-IsPlaced name entries entry (inr e) found =
    let is_plan : entry ≡ entry_of (lit "plan") (lit "8") = ground arith in
    subst (IsPlaced offline tree with_tree) (sym is_plan) (record {
      here = refl;
      present = (plain plan_bytes, (unfold str_eq in refl));
      below = λ dir. absurd cc;
      apart = λ _. (unfold str_eq in refl);
    })

pub with_tree-IsWhole : IsWhole offline tree with_tree
with_tree-IsWhole =
    let T = with_tree-IsLocalTree in
    record {
      root_here = T.root_here;
      unpoisoned = T.unpoisoned;
      stored = T.stored;
      top = T.top;
      placed = λ uri name entries entry held found.
          tree-IsPlaced name entries entry (tree-cases uri entries held) found;
    }

place_file-EndsWhole_example :
    EndsWhole offline (place_file offline 1 3 (lit "docs/plan/x") (lit "a") true) with_tree
unfolding split
place_file-EndsWhole_example =
    place_file-EndsWhole offline entry_codec-IsLawful 1 3 tree with_tree with_tree-IsWhole
      (lit "docs/plan/x") true (lit "0") drawn_disk drawn_zero (omega arith)

pub offline-IsServable : IsServable offline
offline-IsServable = record {
  requests = client_request_codec-IsLawful;
  responses = client_response_codec-IsLawful;
}

store-fetch_example :
    (d' : DaemonState offline) × (store
        (serving offline 1)
        (lit "a")
        (lit "docs/new")
        (5 ∷ 6 ∷ [])
        (quiet offline with_tree)
      ≡ (ok (success tt), quiet offline d'))
    × (fetch (serving offline 1) (lit "docs/new") (quiet offline d')
        ≡ (ok (success (5 ∷ 6 ∷ [])), quiet offline d'))
unfolding str_eq split contains
store-fetch_example =
    store-fetch offline entry_codec-IsLawful offline-IsServable 1 tree with_tree with_tree-IsWhole
      (lit "docs/new") (lit "7") (lit "new") (lit "0") drawn_disk docs_entries (5 ∷ 6 ∷ [])
      drawn_zero (below (lit "docs") docs refl refl refl refl refl) refl (λ entry h. cc)

-- A session in which the client asks for a file to be placed.
abbrev asking : Bytes → Session offline
asking bytes = record (quiet offline with_tree) { incoming = bytes }

abbrev request : ClientRequest
request = ClientRequest.place (lit "docs/new") (lit "a")

handle_client_request-IsAnswered_example : IsAnswered offline 1 tree request (asking [])
handle_client_request-IsAnswered_example =
    handle_client_request-IsAnswered offline entry_codec-IsLawful 1 tree (asking [])
      with_tree-IsWhole refl request refl (lit "0", drawn_disk, drawn_zero)

-- The client sends nothing more.
no_more :
    (s : Session offline)
    → length s.incoming ≤ 0
    → client_request_codec.from_reader s.incoming ≡ none
no_more s h = elim (List-cases s.incoming) [
  | inl e ↦ ap client_request_codec.from_reader e
  | inr (byte, bytes, e) ↦ absurd (omega (arith, ap length e))
]

-- The session after the request, whatever it is, is one in which nothing more comes.
talk : IsTalk offline 1 (asking (client_request_codec.to_vec request))
talk =
    let A =
      handle_client_request-IsAnswered offline entry_codec-IsLawful 1 tree (asking [])
        with_tree-IsWhole refl request refl (lit "0", drawn_disk, drawn_zero) in
    more (asking (client_request_codec.to_vec request)) request [] refl refl
      (lit "0", drawn_disk, drawn_zero)
      (λ s' handled. done s' (
        no_more s' (
          let same : A.last ≡ s' = ground (arith, A.runs, handled) in
          omega (arith, A.shorter, ap (λ s. length s.incoming) same))))

handle_client-IsServed_example :
    IsServed offline 1 30 (asking (client_request_codec.to_vec request))
handle_client-IsServed_example =
    handle_client-IsServed offline 1 entry_codec-IsLawful client_request_codec-IsLawful 30
      (asking (client_request_codec.to_vec request)) tree with_tree-IsWhole refl talk (omega arith)

abbrev pub alone : Opt offline
alone = record { root_id = none; cache_size = 8; name = lit "a" }

start-IsWhole_example :
    (s' : DaemonState offline) × (start offline alone 3 blank tt ≡ (ok true, s'))
    × ((tree : Tree) × IsWhole offline tree s' × (tree (lit "root") ≡ some (root_links (lit "a"))))
    × (s'.local.name ≡ lit "a")
    × (s'.known_hosts ≡ some [])
start-IsWhole_example =
    start-IsWhole offline entry_codec-IsLawful alone 3 blank tt refl refl refl refl
