-- ===== src/Examples/TerminalRuns.antt =====
-- The shell at a terminal, with the root daemon of FindRuns or with responses that are given.
use vpfs_iroh.Base.{
  ℕ, Str, lit, str_eq, true, Option, none, some, List, [], ◌∷◌, length, drop, leb, ◌≡◌, refl, ok,
  unfinished, failure,
}
use vpfs_iroh.Messages.{Location, only_in_cache, ClientResponse}
use vpfs_iroh.Files.{Bytes}
use vpfs_iroh.Codec.{Codec}
use vpfs_iroh.Text.{split}
use vpfs_iroh.Service.{fill}
use vpfs_iroh.Client.{Transport, read, send_request_async, receive_response_async}
use vpfs_iroh.Client.Dialogue.{serving, quiet}
use vpfs_iroh.Shell.Parser.{is_whitespace}
use vpfs_iroh.Shell.Terminal.{Message, System, Console, trim}
use vpfs_iroh.Shell.Run.{forward_reads}
use vpfs_iroh.Shell.Dispatch.{run_ls, run_lines}
use vpfs_iroh.Shell.Entered.{IsEntered, at_root, run_lines-IsEntered}
use vpfs_iroh.Shell.Questions.{forward_reads-IsOther, run_lines-end}
use vpfs_iroh.Shell.Listing.{lines_of, run_ls-lines_of, run_ls-start}
use vpfs_iroh.Examples.Codecs.{entry_codec, entry_codec-IsLawful}
use vpfs_iroh.Examples.ClientCodecs.{client_request_codec, client_response_codec}
use vpfs_iroh.State.{DaemonState}
use vpfs_iroh.Start.{start}
use vpfs_iroh.Examples.World.{blank, offline, place}
use vpfs_iroh.Examples.FindRuns.{tree, docs, docs_entries, with_tree}
use vpfs_iroh.Examples.ServiceRuns.{alone, offline-IsServable, with_tree-IsWhole}

-- No program can be started.
abbrev idle : System
idle = record {
  State = Unit;
  Process = Unit;
  piped = 0;
  spawn = λ program args stdin stdout stderr s. (none, s);
  wait = λ process s. (true, s);
  write_all = λ end bytes s. (true, s);
  read_to_end = λ end s. (some [], s);
}

abbrev read_from : {A : Type 0} → Codec A → Bytes → Option A × Bytes
read_from codec bytes = elim (codec.from_reader bytes) [
  | none ↦ (none, bytes)
  | some (a, rest) ↦ (some a, rest)
]

-- A connection on which the given bytes come.
abbrev recorded : Transport
recorded = record {
  State = Bytes;
  PublicKey = ℕ;
  write_value = λ codec a s. (true, s);
  read_value = λ codec s. read_from codec s;
  write_all = λ bytes s. (true, s);
  read_exact = λ n s. ((leb n (length s), fill n s), drop n s);
  hello_codec = offline.hello_codec;
  hello_response_codec = offline.hello_response_codec;
  client_request_codec = client_request_codec;
  client_response_codec = client_response_codec;
}

abbrev at : Str → List Str → Console (serving offline 1) idle
at cwd typed = record {
  vpfs = quiet offline with_tree;
  system = tt;
  local = lit "a";
  cwd = cwd;
  typed = typed;
  printed = [];
  threads = [];
}

run_ls-lines_of_example :
    run_ls (serving offline 1) idle entry_codec (at (lit "docs") [])
    ≡ (ok tt, record (at (lit "docs") []) { printed = lines_of docs_entries })
unfolding str_eq split
run_ls-lines_of_example =
    run_ls-lines_of offline entry_codec-IsLawful offline-IsServable 1 idle tree with_tree docs
      docs_entries (at (lit "docs") []) refl with_tree-IsWhole refl refl

run_lines-IsEntered_example :
    IsEntered
      (serving offline 1)
      idle
      entry_codec
      ((run_lines
          (serving offline 1)
          idle
          entry_codec
          3
          40
          (at [] (lit "cd docs\n" ∷ lit "exit\n" ∷ []))).1
        ).cwd
run_lines-IsEntered_example =
    run_lines-IsEntered (serving offline 1) idle entry_codec 3 40
      (at [] (lit "cd docs\n" ∷ lit "exit\n" ∷ [])) at_root

abbrev cached : Location
cached = place (lit "a") (lit "3")

-- The user types `yes`, and then `y`.
abbrev asked : Console recorded idle
asked = record {
  vpfs = client_response_codec.to_vec (ClientResponse.read (failure (only_in_cache cached)));
  system = tt;
  local = lit "a";
  cwd = [];
  typed = lit "yes\n" ∷ lit "y\n" ∷ [];
  printed = [];
  threads = [];
}

forward_reads-IsOther_example :
    (forward_reads recorded idle 9 (place (lit "b") (lit "5")) 1 asked).0 ≡ unfinished
unfolding read send_request_async receive_response_async trim is_whitespace
forward_reads-IsOther_example =
    forward_reads-IsOther recorded idle 9 (place (lit "b") (lit "5")) cached 1 asked []
      (lit "yes\n") (lit "y\n" ∷ []) refl refl
      ((λ e. absurd cc), (λ e. absurd cc), (λ e. absurd cc))

run_lines-end_example :
    (run_lines recorded idle entry_codec 5 9 (record asked { typed = [] })).0 ≡ unfinished
run_lines-end_example =
    run_lines-end recorded idle entry_codec 5 9 (record asked { typed = [] }) refl

abbrev fresh : Console (serving offline 1) idle
fresh = at [] []

run_ls-start_example :
    (d : DaemonState offline) × (start offline alone 3 blank tt ≡ (ok true, d))
    × (run_ls (serving offline 1) idle entry_codec (record fresh { vpfs = quiet offline d }) ≡ (
      ok tt,
      record fresh {
        vpfs = quiet offline d;
        printed =
            Message.listed true (lit ".") (lit "a") ∷ Message.listed true (lit "..") (lit "a") ∷ [];
      },
    ))
run_ls-start_example =
    run_ls-start offline entry_codec-IsLawful offline-IsServable 1 idle alone 3 blank tt fresh refl
      refl refl refl refl
