-- ===== src/Wire/Sequences.antt =====
-- Runs of reads and of writes: the loops over collections in src/chain.
use bitprim_core.Common.{
  ℕ, zero, suc, ◌≡◌, refl, List, [], ◌∷◌, ◌++◌, append_assoc, length, Bytes, All,
}
use bitprim_core.Wire.Deserializer.{Read, reader}

-- A loop that reads a number of elements, each whatever became of the one before.
unfoldable pub read_times : {A : Type 0} → Read A → ℕ → Read (List A)
read_times read zero r = ([], r)
read_times read (suc n) r =
    let (a, r1) = read r in let (rest, r2) = read_times read n r1 in (a ∷ rest, r2)

unfoldable pub write_all : {A : Type 0} → (A → Bytes) → List A → Bytes
write_all write [] = []
write_all write (a ∷ rest) = write a ++ write_all write rest

-- The element reads back as it was written, whatever follows.
pub record ReadsBack {A : Type 0} (read : Read A) (write : A → Bytes) (a : A) : Type 0 where
  pub back : (rest : Bytes) → read (reader (write a ++ rest)) ≡ (a, reader rest)

pub read_times-write_all :
    {A : Type 0} (read : Read A) (write : A → Bytes) (items : List A) (rest : Bytes)
    → All (ReadsBack read write) items
    → read_times read (length items) (reader (write_all write items ++ rest)) ≡ (items, reader rest)
unfolding read_times write_all
read_times-write_all read write [] rest h = refl
read_times-write_all read write (a ∷ items) rest (ha, h) =
    rw
      (
        append_assoc,
        ha.back (write_all write items ++ rest),
        read_times-write_all read write items rest h,
      )
      refl
