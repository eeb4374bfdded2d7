-- ===== src/Serializer/Writer.antt =====
-- The CBOR writer of serializer.cpp, lines 23 to 65.
use free_labour_common_will.Base.{
  ℕ, zero, suc, ◌+◌, ◌*◌, ◌/◌, ◌%◌, ◌^◌, List, [], ◌∷◌, ◌++◌, leb, if◌then◌else◌, length, ℤ, pos,
  negsuc,
}

-- `static_cast<uint8_t>`.
abbrev pub byte : ℕ → ℕ
byte v = v % 256

-- Writes one after the other.
abbrev pub emit : List (List ℕ) → List ℕ
emit [] = []
emit (bs ∷ rest) = bs ++ emit rest

-- `for (int i = n - 1; i >= 0; --i) out.push_back(val >> (8 * i))`.
abbrev pub push_be : ℕ → ℕ → List ℕ
push_be zero val = []
push_be (suc i) val = byte (val / 256 ^ i) ∷ push_be i val

-- The initial byte and the argument, in the shortest form.
unfoldable pub write_head : ℕ → ℕ → List ℕ
write_head major val =
    let base = byte (major * 32) in
    if leb val 23
    then (base + byte val) ∷ []
    else if leb val 0xff
    then (base + 24) ∷ byte val ∷ []
    else if leb val 0xffff
    then (base + 25) ∷ byte (val / 2 ^ 8) ∷ byte val ∷ []
    else if leb val 0xffff_ffff
    then (base + 26)
      ∷ byte (val / 2 ^ 24)
      ∷ byte (val / 2 ^ 16)
      ∷ byte (val / 2 ^ 8)
      ∷ byte val
      ∷ []
    else (base + 27) ∷ push_be 8 val

unfoldable pub w_uint : ℕ → List ℕ
w_uint v = write_head 0 v

unfoldable pub w_map : ℕ → List ℕ
w_map n = write_head 5 n

unfoldable pub w_arr : ℕ → List ℕ
w_arr n = write_head 4 n

-- `negsuc n` is -1 - n, so that `static_cast<uint64_t>(-1 - v)` is `n`.
unfoldable pub w_int64 : ℤ → List ℕ
w_int64 (pos n) = write_head 0 n
w_int64 (negsuc n) = write_head 1 n

unfoldable pub w_bytes : List ℕ → List ℕ
w_bytes bs = write_head 2 (length bs) ++ bs

unfoldable pub w_fixed : List ℕ → List ℕ
w_fixed bs = w_bytes bs
