-- ===== src/Codec.antt =====
-- serde_bare as a parameter: what the sources rely on is that a value is read back from the bytes
-- that it was written as, whatever follows them, and that reading at the end of the input fails.
use vpfs_iroh.Base.{◌<◌, ◌≡◌, Option, none, some, [], ◌++◌, length}
use vpfs_iroh.Files.{Bytes}

pub record Codec (A : Type 0) : Type 0 where
  -- `to_vec`; `to_writer` appends these bytes.
  pub to_vec : A → Bytes
  -- `from_reader`, with the bytes that it leaves in the reader.
  pub from_reader : Bytes → Option (A × Bytes)
  -- `from_slice`
  pub from_slice : Bytes → Option A

pub record IsLawful {A : Type 0} (c : Codec A) : Type 0 where
  pub read_back : (a : A) (rest : Bytes) → c.from_reader (c.to_vec a ++ rest) ≡ some (a, rest)
  pub read_slice : (a : A) → c.from_slice (c.to_vec a) ≡ some a
  pub at_end : c.from_reader [] ≡ none
  -- A value takes at least a byte.
  pub shorter :
      (bytes : Bytes) (a : A) (rest : Bytes)
      → c.from_reader bytes ≡ some (a, rest)
      → length rest < length bytes
