-- ===== src/Serializer/Reads/Sequence.antt =====
-- A reader that undoes a writer, and readers one after the other.
use free_labour_common_will.Base.{
  ℕ, ◌+◌, ◌^◌, ◌<◌, ◌≤◌, ◌≡◌, refl, ap, ◌∙◌, List, [], ◌∷◌, ◌++◌, if◌then◌else◌, length, Bool, true,
  false, arith, append_assoc, append-nil, length-append, le→leb, All,
}
use mathlib.Core.List.{map}
use free_labour_common_will.Types.Outcome.{Error, ok}
use free_labour_common_will.Serializer.Encode.{each}
use free_labour_common_will.Serializer.Reader.{Reader, M, ◌>>=◌, ◌>>◌, pure, check, reserve}
use free_labour_common_will.Serializer.Decode.{repeat}

-- From any position the reader takes exactly `bs`, yields `x` and leaves what follows.
pub record Reads {A : Type 0} (p : M A) (bs : List ℕ) (x : A) : Type 0 where
  pub run :
      (i : ℕ) (tl : List ℕ)
      → i + length bs + length tl < 2 ^ 64
      → p (record { at = i; rest = bs ++ tl }) ≡ ok (x, record { at = i + length bs; rest = tl })

module _ {A : Type 0} where
  pub Reads-pure : {x y : A} → x ≡ y → Reads (pure x) [] y
  unfolding pure
  Reads-pure e = record { run = λ i tl h. ground (arith, e) }

  pub bind_run :
      {B : Type 0} (p : M A) (f : A → M B) (r r' : Reader) (x : A)
      → p r ≡ ok (x, r')
      → (p >>= f) r ≡ f x r'
  unfolding ◌>>=◌
  bind_run p f r r' x e = rw (e, ◌>>=◌)

  pub Reads-bind :
      {B : Type 0} (p : M A) (f : A → M B) {bs cs : List ℕ} {x : A} {y : B}
      → Reads p bs x
      → Reads (f x) cs y
      → Reads (p >>= f) (bs ++ cs) y
  Reads-bind p f {bs} {cs} {x} {y} hp hf = record {
    run = λ i tl h. rw (append_assoc bs cs tl) (
        bind_run p f _ _ x
          (hp.run i (cs ++ tl) (omega (arith, length-append {0} bs cs, length-append {0} cs tl)))
        ∙ hf.run (i + length bs) tl (omega (arith, length-append {0} bs cs))
        ∙ ap (λ (n : ℕ). ok (y, record { at = n; rest = tl }))
            (omega (arith, length-append {0} bs cs)));
  }

pub Reads-check : (b : Bool) (e : Error) → b ≡ true → Reads (check b e) [] tt
unfolding check
Reads-check b e h = record { run = λ i tl k. rw h (ground arith) }

pub Reads-check_then :
    {A : Type 0} (b : Bool) (e : Error) (p : M A) {bs : List ℕ} {x : A}
    → b ≡ true
    → Reads p bs x
    → Reads (check b e >> p) bs x
Reads-check_then b e p h hp = Reads-bind _ _ (Reads-check b e h) hp

pub Reads-reserve : (limit n : ℕ) → n ≤ limit → Reads (reserve limit n) [] tt
unfolding reserve
Reads-reserve limit n h = Reads-check _ _ (le→leb n limit h)

pub Reads-if :
    {A : Type 0} {p : M A} {x : A} (b : Bool) (bs cs : List ℕ)
    → (b ≡ true → Reads p bs x)
    → (b ≡ false → Reads p cs x)
    → Reads p (if b then bs else cs) x
Reads-if true bs cs f g = f refl
Reads-if false bs cs f g = g refl

-- A loop over the elements undoes the loop that wrote them, up to what `val` forgets.
pub Reads-repeat :
    {A B : Type 0} (dec : M B) (enc : A → List ℕ) (val : A → B) (P : A → Type 0)
    → ((x : A) → P x → Reads dec (enc x) (val x))
    → (xs : List A) → All P xs
    → Reads (repeat (length xs) dec) (each enc xs) (map val xs)
unfolding repeat
Reads-repeat dec enc val P one [] h = Reads-pure refl
Reads-repeat dec enc val P one (x ∷ xs) h = rw (← append-nil (each enc xs)) (
    Reads-bind _ _ (one x h.0)
      (Reads-bind _ _ (Reads-repeat dec enc val P one xs h.1) (Reads-pure refl)))
