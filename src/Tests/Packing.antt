-- ===== src/Tests/Packing.antt =====
-- A small codec for the structs of messages: a list of byte strings is each with its length before.
use qubitcrypt.Prelude.{
  ℕ, zero, suc, ◌≡◌, refl, ap, sym, ◌∙◌, String, Option, none, some, List, [], ◌∷◌, ◌++◌, length,
  take, drop, take-append, drop-append, str_eq, eq_iff, if◌then◌else◌, Bool-cases, inl, inr,
  eq_of_some, arith,
}
use qubitcrypt.Outcome.{Bytes}

abbrev pub pack : List Bytes → Bytes
pack [] = []
pack (b ∷ bs) = length b ∷ (b ++ pack bs)

abbrev first_of : Bytes → Bytes
first_of [] = []
first_of (n ∷ b) = take n b

abbrev rest_of : Bytes → Bytes
rest_of [] = []
rest_of (n ∷ b) = drop n b

abbrev pub unpack : ℕ → Bytes → List Bytes
unpack zero b = []
unpack (suc n) b = first_of b ∷ unpack n (rest_of b)

pub unpack-pack : (bs : List Bytes) → unpack (length bs) (pack bs) ≡ bs
unpack-pack [] = refl
unpack-pack (b ∷ bs) =
    (λ i. take-append b (pack bs) i ∷ unpack (length bs) (drop-append b (pack bs) i))
    ∙ ap (λ l. b ∷ l) (unpack-pack bs)

-- The same with the number of strings before.
abbrev pub pack_all : List Bytes → Bytes
pack_all bs = length bs ∷ pack bs

abbrev pub unpack_all : Bytes → List Bytes
unpack_all [] = []
unpack_all (n ∷ b) = unpack n b

abbrev pub nth : ℕ → List Bytes → Bytes
nth n [] = []
nth zero (b ∷ bs) = b
nth (suc n) (b ∷ bs) = nth n bs

abbrev pub number : Bytes → ℕ
number [] = 0
number (n ∷ _) = n

abbrev pub tail_of : Bytes → Bytes
tail_of [] = []
tail_of (_ ∷ b) = b

abbrev pub optional : Option Bytes → Bytes
optional none = []
optional (some b) = 1 ∷ b

abbrev pub read_optional : Bytes → Option Bytes
read_optional [] = none
read_optional (_ ∷ b) = some b

pub read-optional : (o : Option Bytes) → read_optional (optional o) ≡ o
read-optional none = refl
read-optional (some b) = refl

-- Object identifiers as their places in a list.
abbrev add_one : Option ℕ → Option ℕ
add_one none = none
add_one (some n) = some (suc n)

abbrev pub place_of : List String → String → Option ℕ
place_of [] s = none
place_of (x ∷ xs) s = if str_eq x s then some 0 else add_one (place_of xs s)

abbrev pub text_at : List String → ℕ → String
text_at [] n = ""
text_at (x ∷ xs) zero = x
text_at (x ∷ xs) (suc n) = text_at xs n

pub text_at-place_of :
    (xs : List String) (s : String) (n : ℕ) → place_of xs s ≡ some n → text_at xs n ≡ s
text_at-place_of [] s n h = absurd (ground arith)
text_at-place_of (x ∷ xs) s n h = elim (Bool-cases (str_eq x s)) [
  | inl e ↦ ap (text_at (x ∷ xs)) (sym (eq_of_some (rw (e) at h))) ∙ (eq_iff x s).0 e
  | inr e ↦ later (place_of xs s) (text_at-place_of xs s) (rw (e) at h)
]
  where
    later :
        (o : Option ℕ)
        → ((m : ℕ) → o ≡ some m → text_at xs m ≡ s)
        → add_one o ≡ some n
        → text_at (x ∷ xs) n ≡ s
    later none f g = absurd (ground arith)
    later (some m) f g = ap (text_at (x ∷ xs)) (sym (eq_of_some g)) ∙ f m refl
