-- ===== src/Examples/Sums.antt =====
-- An encoding of a choice: a tag and its content.
use vpfs_iroh.Base.{
  zero, suc, ◌<◌, Option, none, some, [], ◌∷◌, ◌++◌, length, ◌≡◌, refl, arith, Option-cases, ◌⊎◌,
  inl, inr,
}
use vpfs_iroh.Files.{Bytes}
use vpfs_iroh.Codec.{Codec, IsLawful}
use vpfs_iroh.Examples.Encodings.{first_of, first_of-write}

module _ {A B C : Type 0} (a : Codec A) (b : Codec B) (make : A ⊎ B → C) (out : C → A ⊎ B) where
  abbrev write_choice : A ⊎ B → Bytes
  write_choice (inl x) = 0 ∷ a.to_vec x
  write_choice (inr y) = 1 ∷ b.to_vec y

  abbrev as_left : Option (A × Bytes) → Option (C × Bytes)
  as_left none = none
  as_left (some (x, rest)) = some (make (inl x), rest)

  abbrev as_right : Option (B × Bytes) → Option (C × Bytes)
  as_right none = none
  as_right (some (y, rest)) = some (make (inr y), rest)

  abbrev read_choice : Bytes → Option (C × Bytes)
  read_choice [] = none
  read_choice (zero ∷ bytes) = as_left (a.from_reader bytes)
  read_choice (suc n ∷ bytes) = as_right (b.from_reader bytes)

  abbrev pub sum_codec : Codec C
  sum_codec = record {
    to_vec = λ c. write_choice (out c);
    from_reader = read_choice;
    from_slice = λ bytes. first_of (read_choice bytes);
  }

  module _ (la : IsLawful a) (lb : IsLawful b) (whole : (c : C) → make (out c) ≡ c) where
    read_write :
        (x : A ⊎ B) (rest : Bytes) → read_choice (write_choice x ++ rest) ≡ some (make x, rest)
    read_write (inl x) rest = ground (arith, la.read_back x rest)
    read_write (inr y) rest = ground (arith, lb.read_back y rest)

    read_choice-back :
        (c : C) (rest : Bytes) → read_choice (write_choice (out c) ++ rest) ≡ some (c, rest)
    read_choice-back c rest = ground (arith, read_write (out c) rest, whole c)

    read_choice-shorter :
        (bytes : Bytes) (c : C) (rest : Bytes)
        → read_choice bytes ≡ some (c, rest)
        → length rest < length bytes
    read_choice-shorter [] c rest h = cc
    read_choice-shorter (zero ∷ bytes) c rest h = elim (Option-cases (a.from_reader bytes)) [
      | inl missing ↦ absurd (ground arith)
      | inr ((x, last), read) ↦ ground (arith, la.shorter bytes x last read)
    ]
    read_choice-shorter (suc n ∷ bytes) c rest h = elim (Option-cases (b.from_reader bytes)) [
      | inl missing ↦ absurd (ground arith)
      | inr ((y, last), read) ↦ ground (arith, lb.shorter bytes y last read)
    ]

    pub sum_codec-IsLawful : IsLawful sum_codec
    sum_codec-IsLawful = record {
      read_back = read_choice-back;
      read_slice = first_of-write sum_codec.to_vec read_choice read_choice-back;
      at_end = refl;
      shorter = read_choice-shorter;
    }
