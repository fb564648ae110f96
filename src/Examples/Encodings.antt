-- ===== src/Examples/Encodings.antt =====
-- Encodings of texts, numbers and flags, of pairs and of options.
use vpfs_iroh.Base.{
  ℕ, zero, suc, ◌≤◌, ◌<◌, Str, Bool, true, false, Option, none, some, [], ◌∷◌, ◌++◌, length, take,
  drop, take-length_append, drop-length_append, length-append, append_assoc, append-nil, leb,
  if◌then◌else◌, ◌≡◌, refl, arith, Option-cases, inl, inr,
}
use vpfs_iroh.Files.{Bytes}
use vpfs_iroh.Codec.{Codec, IsLawful}

-- A slice is read from its start.
abbrev pub first_of : {A : Type 0} → Option (A × Bytes) → Option A
first_of none = none
first_of (some (a, rest)) = some a

-- What is read back before other bytes is read back alone.
pub first_of-write :
    {A : Type 0} (write : A → Bytes) (read : Bytes → Option (A × Bytes))
    → ((a : A) (rest : Bytes) → read (write a ++ rest) ≡ some (a, rest))
    → (a : A) → first_of (read (write a)) ≡ some a
first_of-write write read back a =
    let alone : read (write a) ≡ some (a, []) = rw append-nil at (back a []) in rw alone

abbrev pub read_text : Bytes → Option (Str × Bytes)
read_text [] = none
read_text (n ∷ bytes) = if leb n (length bytes) then some (take n bytes, drop n bytes) else none

abbrev pub str_codec : Codec Str
str_codec = record {
  to_vec = λ s. length s ∷ s;
  from_reader = read_text;
  from_slice = λ bytes. first_of (read_text bytes);
}

length-drop_le : (n : ℕ) (bytes : Bytes) → length (drop n bytes) ≤ length bytes
length-drop_le zero bytes = omega arith
length-drop_le (suc n) [] = omega arith
length-drop_le (suc n) (b ∷ bytes) = omega (arith, length-drop_le n bytes)

pub read_text-shorter :
    (bytes : Bytes) (s : Str) (rest : Bytes)
    → read_text bytes ≡ some (s, rest)
    → length rest < length bytes
read_text-shorter [] s rest h = cc
read_text-shorter (n ∷ bytes) s rest h = ground (arith, length-drop_le n bytes)

read_text-back : (s : Str) (rest : Bytes) → read_text (str_codec.to_vec s ++ rest) ≡ some (s, rest)
read_text-back s rest =
    rw (take-length_append s rest, drop-length_append s rest) (ground (arith, length-append s rest))

pub str_codec-IsLawful : IsLawful str_codec
str_codec-IsLawful = record {
  read_back = read_text-back;
  read_slice = first_of-write str_codec.to_vec read_text read_text-back;
  at_end = refl;
  shorter = read_text-shorter;
}

abbrev read_number : Bytes → Option (ℕ × Bytes)
read_number [] = none
read_number (n ∷ bytes) = some (n, bytes)

abbrev pub usize_codec : Codec ℕ
usize_codec = record {
  to_vec = λ n. n ∷ [];
  from_reader = read_number;
  from_slice = λ bytes. first_of (read_number bytes);
}

read_number-shorter :
    (bytes : Bytes) (n : ℕ) (rest : Bytes)
    → read_number bytes ≡ some (n, rest)
    → length rest < length bytes
read_number-shorter [] n rest h = cc
read_number-shorter (m ∷ bytes) n rest h = ground arith

pub usize_codec-IsLawful : IsLawful usize_codec
usize_codec-IsLawful = record {
  read_back = λ n rest. refl;
  read_slice = λ n. refl;
  at_end = refl;
  shorter = read_number-shorter;
}

abbrev read_flag : Bytes → Option (Bool × Bytes)
read_flag [] = none
read_flag (zero ∷ bytes) = some (false, bytes)
read_flag (suc n ∷ bytes) = some (true, bytes)

abbrev pub flag_codec : Codec Bool
flag_codec = record {
  to_vec = λ b. (if b then 1 else 0) ∷ [];
  from_reader = read_flag;
  from_slice = λ bytes. first_of (read_flag bytes);
}

read_flag-back :
    (b : Bool) (rest : Bytes) → read_flag (flag_codec.to_vec b ++ rest) ≡ some (b, rest)
read_flag-back true rest = refl
read_flag-back false rest = refl

read_flag-shorter :
    (bytes : Bytes) (b : Bool) (rest : Bytes)
    → read_flag bytes ≡ some (b, rest)
    → length rest < length bytes
read_flag-shorter [] b rest h = cc
read_flag-shorter (zero ∷ bytes) b rest h = ground arith
read_flag-shorter (suc n ∷ bytes) b rest h = ground arith

pub flag_codec-IsLawful : IsLawful flag_codec
flag_codec-IsLawful = record {
  read_back = read_flag-back;
  read_slice = first_of-write flag_codec.to_vec read_flag read_flag-back;
  at_end = refl;
  shorter = read_flag-shorter;
}

module _ {A B C : Type 0} (a : Codec A) (b : Codec B) (make : A → B → C) (first : C → A)
    (second : C → B) where
  -- A pair, and through it a record with the fields `first` and `second`.
  abbrev read_pair : Bytes → Option (C × Bytes)
  read_pair bytes = elim (a.from_reader bytes) [
    | none ↦ none
    | some (x, rest) ↦ elim (b.from_reader rest) [
      | none ↦ none
      | some (y, rest') ↦ some (make x y, rest')
    ]
  ]

  abbrev pub pair_codec : Codec C
  pair_codec = record {
    to_vec = λ c. a.to_vec (first c) ++ b.to_vec (second c);
    from_reader = read_pair;
    from_slice = λ bytes. first_of (read_pair bytes);
  }

  read_pair-back :
      IsLawful a
      → IsLawful b
      → ((c : C) → make (first c) (second c) ≡ c)
      → (c : C) (rest : Bytes) → read_pair (pair_codec.to_vec c ++ rest) ≡ some (c, rest)
  read_pair-back la lb whole c rest = rw append_assoc (
      ground (
        arith,
        la.read_back (first c) (b.to_vec (second c) ++ rest),
        lb.read_back (second c) rest,
        whole c,
      ))

  pub pair_codec-IsLawful :
      IsLawful a → IsLawful b → ((c : C) → make (first c) (second c) ≡ c) → IsLawful pair_codec
  pair_codec-IsLawful la lb whole = record {
    read_back = read_pair-back la lb whole;
    read_slice = first_of-write pair_codec.to_vec read_pair (read_pair-back la lb whole);
    at_end = ground (arith, la.at_end);
    shorter = λ bytes c rest h. elim (Option-cases (a.from_reader bytes)) [
      | inl missing ↦ absurd (ground arith)
      | inr ((x, middle), read) ↦ elim (Option-cases (b.from_reader middle)) [
        | inl missing ↦ absurd (ground arith)
        | inr ((y, last), read') ↦
            ground (arith, la.shorter bytes x middle read, lb.shorter middle y last read')
      ]
    ];
  }

module _ {A : Type 0} (a : Codec A) where
  abbrev write_option : Option A → Bytes
  write_option none = 0 ∷ []
  write_option (some x) = 1 ∷ a.to_vec x

  abbrev as_some : Option (A × Bytes) → Option (Option A × Bytes)
  as_some none = none
  as_some (some (x, rest)) = some (some x, rest)

  abbrev read_option : Bytes → Option (Option A × Bytes)
  read_option [] = none
  read_option (zero ∷ bytes) = some (none, bytes)
  read_option (suc n ∷ bytes) = as_some (a.from_reader bytes)

  abbrev pub option_codec : Codec (Option A)
  option_codec = record {
    to_vec = write_option;
    from_reader = read_option;
    from_slice = λ bytes. first_of (read_option bytes);
  }

  module _ (la : IsLawful a) where
    read_option-back :
        (o : Option A) (rest : Bytes) → read_option (write_option o ++ rest) ≡ some (o, rest)
    read_option-back none rest = refl
    read_option-back (some x) rest = ground (arith, la.read_back x rest)

    read_option-shorter :
        (bytes : Bytes) (o : Option A) (rest : Bytes)
        → read_option bytes ≡ some (o, rest)
        → length rest < length bytes
    read_option-shorter [] o rest h = cc
    read_option-shorter (zero ∷ bytes) o rest h = ground arith
    read_option-shorter (suc n ∷ bytes) o rest h = elim (Option-cases (a.from_reader bytes)) [
      | inl missing ↦ absurd (ground arith)
      | inr ((x, last), read) ↦ ground (arith, la.shorter bytes x last read)
    ]

    pub option_codec-IsLawful : IsLawful option_codec
    option_codec-IsLawful = record {
      read_back = read_option-back;
      read_slice = first_of-write write_option read_option read_option-back;
      at_end = refl;
      shorter = read_option-shorter;
    }

-- For messages whose encoding no example looks at.
abbrev pub no_codec : {A : Type 0} → Codec A
no_codec = record { to_vec = λ _. []; from_reader = λ _. none; from_slice = λ _. none }
