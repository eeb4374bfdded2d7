-- ===== src/Serializer/Reader.antt =====
-- `CborReader` of serializer.cpp, lines 205 to 313, as a state monad that may throw.
-- `pos` and `size` are 64-bit words: the sum in `need` wraps around as it does in the source.
use free_labour_common_will.Base.{
  ℕ, zero, suc, ◌+◌, ◌-◌, ◌*◌, ◌/◌, ◌%◌, ◌^◌, List, [], ◌∷◌, leb, ltb, ◌==◌, if◌then◌else◌, length,
  ℤ, pos, negsuc, take, drop, Bool, true, false,
}
use free_labour_common_will.Types.Outcome.{
  Error, Result, ok, err, serialization_error, length_error, out_of_bounds,
}

-- The position, and the bytes from there to the end of the buffer.
pub record Reader : Type 0 where
  pub at : ℕ
  pub rest : List ℕ

abbrev pub size : Reader → ℕ
size r = r.at + length r.rest

abbrev pub M : Type 0 → Type 0
M A = Reader → Result (A × Reader)

infixl 5 ◌>>=◌ ◌>>◌
unfoldable pub ◌>>=◌ : {A B : Type 0} → M A → (A → M B) → M B
◌>>=◌ m f r = elim (m r) [ err e ↦ err e | ok (a, r') ↦ f a r' ]

abbrev pub ◌>>◌ : {B : Type 0} → M (Unit {0}) → M B → M B
m >> k = m >>= λ _. k

unfoldable pub pure : {A : Type 0} → A → M A
pure a r = ok (a, r)

unfoldable pub throw : {A : Type 0} → Error → M A
throw e r = err e

unfoldable pub check : Bool → Error → M (Unit {0})
check true e r = ok (tt, r)
check false e r = err e

-- `if (pos_ + n > size_) throw SerializationError`.
unfoldable pub need : ℕ → M (Unit {0})
need n r = if ltb (size r) ((r.at + n) % 2 ^ 64) then err serialization_error else ok (tt, r)

-- `data_[pos_++]`.
unfoldable pub next : M ℕ
next r = elim r.rest [
  | [] ↦ err out_of_bounds
  | b ∷ bs ↦ ok (b, record { at = r.at + 1; rest = bs })
]

-- A copy of `n` bytes from `data_ + pos_`, and `pos_ += n`.
unfoldable pub copy : ℕ → M (List ℕ)
copy n r =
    if leb n (length r.rest)
    then ok (take n r.rest, record { at = r.at + n; rest = drop n r.rest })
    else err out_of_bounds

-- A vector of more than `limit` elements, its `max_size()`, cannot be made.
unfoldable pub reserve : ℕ → ℕ → M (Unit {0})
reserve limit n = check (leb n limit) length_error

-- `for (int i = 0; i < k; ++i) v = (v << 8) | data_[pos_++];`
unfoldable pub read_be : ℕ → ℕ → M ℕ
read_be zero v = pure v
read_be (suc k) v = do b ← next; read_be k (v * 256 % 2 ^ 64 + b)

-- The major type and the argument behind the initial byte `initial`.
unfoldable pub read_argument : ℕ → ℕ → M (ℕ × ℕ)
read_argument major info =
    if leb info 23
    then pure (major, info)
    else if info == 24
    then (do need 1; b ← next; pure (major, b))
    else if info == 25
    then (do need 2; a ← next; b ← next; pure (major, a * 2 ^ 8 + b))
    else if info == 26
    then (do
      need 4
      a ← next
      b ← next
      c ← next
      d ← next
      pure (major, a * 2 ^ 24 + b * 2 ^ 16 + c * 2 ^ 8 + d))
    else if info == 27
    then (do need 8; v ← read_be 8 0; pure (major, v))
    else throw serialization_error

unfoldable pub read_head : M (ℕ × ℕ)
read_head = do need 1; initial ← next; read_argument (initial / 32) (initial % 32)

-- A head of the major type `wanted`.
unfoldable pub read_of : ℕ → M ℕ
read_of wanted = do (m, v) ← read_head; check (m == wanted) serialization_error; pure v

unfoldable pub r_uint : M ℕ
r_uint = read_of 0

unfoldable pub r_map : M ℕ
r_map = read_of 5

unfoldable pub r_arr : M ℕ
r_arr = read_of 4

abbrev int64_of : ℕ → ℕ → M ℤ
int64_of m v =
    if m == 0
    then (do check (leb v (2 ^ 63 - 1)) serialization_error; pure (pos v))
    else if m == 1
    then (do check (leb v (2 ^ 63 - 1)) serialization_error; pure (negsuc v))
    else throw serialization_error

unfoldable pub r_int : M ℤ
r_int = do (m, v) ← read_head; int64_of m v

-- `r_bytes_exact`, of which `r_fixed` is the case of an array.
unfoldable pub r_bytes_exact : ℕ → M (List ℕ)
r_bytes_exact expected = do
  len ← read_of 2
  check (len == expected) serialization_error
  need len
  copy len

unfoldable pub r_fixed : ℕ → M (List ℕ)
r_fixed n = r_bytes_exact n

-- The vector's range constructor checks the length against `max_size()`.
unfoldable pub r_bytes : M (List ℕ)
r_bytes = do len ← read_of 2; need len; reserve (2 ^ 63 - 1) len; copy len
