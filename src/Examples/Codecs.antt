-- ===== src/Examples/Codecs.antt =====
-- An encoding with the properties that the sources rely on: a text is its length and its
-- characters, a record is its fields one after the other, and a choice is a tag and its content.
use vpfs_iroh.Base.{ℕ, Str, Option, none, some, ◌++◌, ◌≡◌, refl, arith, Option-cases, inl, inr}
use vpfs_iroh.Messages.{Location, DirectoryEntry, CacheEntry, VpfsNode}
use vpfs_iroh.Files.{Bytes}
use vpfs_iroh.Codec.{Codec, IsLawful}
pub use vpfs_iroh.Examples.Encodings.{
  first_of, first_of-write, read_text, read_text-shorter, str_codec, str_codec-IsLawful,
  usize_codec, usize_codec-IsLawful, flag_codec, flag_codec-IsLawful, pair_codec,
  pair_codec-IsLawful, option_codec, option_codec-IsLawful, no_codec,
}

abbrev pub location_codec : Codec Location
location_codec =
    pair_codec str_codec str_codec (λ n u. record { node_name = n; uri = u }) (λ l. l.node_name)
      (λ l. l.uri)

pub location_codec-IsLawful : IsLawful location_codec
location_codec-IsLawful =
    pair_codec-IsLawful str_codec str_codec _ _ _ str_codec-IsLawful str_codec-IsLawful (λ l. refl)

abbrev named_codec : Codec (Location × Str)
named_codec = pair_codec location_codec str_codec (λ l n. (l, n)) (λ p. p.0) (λ p. p.1)

abbrev pub entry_codec : Codec DirectoryEntry
entry_codec =
    pair_codec named_codec flag_codec (λ p b. record { location = p.0; name = p.1; is_dir = b })
      (λ e. (e.location, e.name)) (λ e. e.is_dir)

pub entry_codec-IsLawful : IsLawful entry_codec
entry_codec-IsLawful =
    pair_codec-IsLawful named_codec flag_codec _ _ _
      (pair_codec-IsLawful location_codec str_codec _ _ _ location_codec-IsLawful str_codec-IsLawful
        (λ p. refl))
      flag_codec-IsLawful (λ e. refl)

abbrev read_entry : Bytes → Option (CacheEntry × Bytes)
read_entry bytes = elim (read_text bytes) [
  | none ↦ none
  | some (uri, rest) ↦ some (record { uri = uri }, rest)
]

abbrev pub cache_entry_codec : Codec CacheEntry
cache_entry_codec = record {
  to_vec = λ e. str_codec.to_vec e.uri;
  from_reader = read_entry;
  from_slice = λ bytes. first_of (read_entry bytes);
}

read_entry-back :
    (e : CacheEntry) (rest : Bytes)
    → read_entry (cache_entry_codec.to_vec e ++ rest) ≡ some (e, rest)
read_entry-back e rest = ground (arith, str_codec-IsLawful.read_back e.uri rest)

pub cache_entry_codec-IsLawful : IsLawful cache_entry_codec
cache_entry_codec-IsLawful = record {
  read_back = read_entry-back;
  read_slice = first_of-write cache_entry_codec.to_vec read_entry read_entry-back;
  at_end = refl;
  shorter = λ bytes e rest h. elim (Option-cases (read_text bytes)) [
    | inl missing ↦ absurd (ground arith)
    | inr ((s, last), read) ↦ ground (arith, read_text-shorter bytes s last read)
  ];
}

-- The key of a node is a number here.
abbrev pub node_codec : Codec (VpfsNode ℕ)
node_codec =
    pair_codec str_codec usize_codec (λ n k. record { name = n; endpoint_id = k }) (λ v. v.name)
      (λ v. v.endpoint_id)

pub node_codec-IsLawful : IsLawful node_codec
node_codec-IsLawful =
    pair_codec-IsLawful str_codec usize_codec _ _ _ str_codec-IsLawful usize_codec-IsLawful
      (λ v. refl)
