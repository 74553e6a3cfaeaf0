-- ===== src/ShobjectName/Named.antt =====
-- The name that shobject_name.h documents, and that shobject_name generates it.
use csc.Base.{
  ℕ, suc, ◌≤◌, ◌≡◌, refl, ap, ap₂, subst, ◌∙◌, Bool, Option, none, some, List, [], ◌∷◌, ◌++◌, take,
  drop, length, if◌then◌else◌, ◌==◌, Bool-cases, inl, inr, ◌⊎◌, ◌<◌, zero, sym, length-append,
  dec_lt, arith, replicate,
}
use csc.CString.{codes, until_nul, printed}
use csc.Job.{is_blank}
use csc.ShobjectName.{label_or_none, user_or_anon, shobj_name, shobject_name}
use csc.ShobjectName.Laws.{shobject_name-whole}

-- The user of the environment, or "anon".
pub user_text : Option (List ℕ) → List ℕ
user_text none = codes "anon"
user_text (some u) = until_nul u

-- The text of a label; NULL has none.
text : Option (List ℕ) → List ℕ
text none = []
text (some s) = until_nul s

or_none : List ℕ → List ℕ
or_none [] = codes "none"
or_none (c ∷ s) = c ∷ s

-- The label, or "none" for NULL and the empty string.
pub label_text : Option (List ℕ) → List ℕ
label_text label = or_none (text label)

-- What SHOBJ_NAME_FMT of the header says: "/csc2035.<user>.<label>", of at most 9 and 12 characters
-- of these.
pub formatted_name : Option (List ℕ) → Option (List ℕ) → List ℕ
formatted_name user label =
    codes "/csc2035." ++ (take 9 (user_text user) ++ (codes "." ++ take 12 (label_text label)))

-- What the prose of the header says: the whole of "/csc2035.<user>.<label>", cut at MAX_NAME_SIZE - 1
-- characters.
pub documented_name : Option (List ℕ) → Option (List ℕ) → List ℕ
documented_name user label =
    take 31 (codes "/csc2035." ++ (user_text user ++ (codes "." ++ label_text label)))

-- What is left in a buffer of 32 bytes, or returned for NULL, where `asprintf` may fail; and that
-- the two descriptions agree, unless the user or the label is longer than its part of the format.
pub record Named (user label : Option (List ℕ)) (buf : List ℕ) (granted : Bool) : Type 0 where
  pub short : length (formatted_name user label) ≤ 31
  pub written :
      shobject_name user label (some buf) granted
      ≡ some
          (formatted_name user label ++ (0 ∷ drop (suc (length (formatted_name user label))) buf))
  pub allocated :
      shobject_name user label none granted
      ≡ (if granted then some (formatted_name user label ++ (0 ∷ [])) else none)
  pub agrees :
      (formatted_name user label ≡ documented_name user label)
      ⊎ (9 < length (user_text user))
      ⊎ (12 < length (label_text label))

printed_user : (user : Option (List ℕ)) → printed 9 (user_or_anon user) ≡ take 9 (user_text user)
unfolding printed user_or_anon user_text
printed_user none = refl
printed_user (some u) = refl

printed_label :
    (label : Option (List ℕ)) → printed 12 (label_or_none label) ≡ take 12 (label_text label)
unfolding printed label_or_none is_blank label_text text or_none
printed_label none = refl
printed_label (some []) = refl
printed_label (some (c ∷ s)) = elim (Bool-cases (c == 0)) [
  | inl e ↦ rw e refl
  | inr e ↦ rw e (rw e refl)
]

name-formatted :
    (user label : Option (List ℕ))
    → shobj_name (user_or_anon user) (label_or_none label) ≡ formatted_name user label
unfolding shobj_name formatted_name
name-formatted user label =
    ap₂ (λ u l. codes "/csc2035." ++ (u ++ (codes "." ++ l))) (printed_user user)
      (printed_label label)

take_all : (n : ℕ) (xs : List ℕ) → length xs ≤ n → take n xs ≡ xs
take_all zero [] h = refl
take_all zero (x ∷ xs) h = absurd (omega arith)
take_all (suc n) [] h = refl
take_all (suc n) (x ∷ xs) h = ap (◌∷◌ x) (take_all n xs (omega arith))

formatted-documented :
    (user label : Option (List ℕ))
    → length (user_text user) ≤ 9
    → length (label_text label) ≤ 12
    → formatted_name user label ≡ documented_name user label
unfolding formatted_name documented_name
formatted-documented user label hu hl =
    let u = user_text user in
    let l = label_text label in
    let inner = length-append u (codes "." ++ l) in
    ap₂ (λ a b. codes "/csc2035." ++ (a ++ (codes "." ++ b))) (take_all 9 u hu) (take_all 12 l hl)
    ∙ sym (take_all 31 (codes "/csc2035." ++ (u ++ (codes "." ++ l))) (omega (arith, inner)))

two_names :
    (user label : Option (List ℕ))
    → (formatted_name user label ≡ documented_name user label)
      ⊎ (9 < length (user_text user))
      ⊎ (12 < length (label_text label))
two_names user label = elim (dec_lt 9 (length (user_text user))) [
  | yes h ↦ inr (inl h)
  | no hu ↦ elim (dec_lt 12 (length (label_text label))) [
    | yes h ↦ inr (inr h)
    | no hl ↦ inl (formatted-documented user label (omega arith) (omega arith))
  ]
]

-- For a long label the prose keeps 31 characters where the format, and the code, keep 25.
prose_differs :
    (length (formatted_name (some (codes "ada")) (some (replicate 40 b'a'))) ≡ 25)
    × (length (documented_name (some (codes "ada")) (some (replicate 40 b'a'))) ≡ 31)
unfolding formatted_name documented_name user_text label_text text or_none
prose_differs = (refl, refl)

-- For every user and label, of the environment or missing: the name that SHOBJ_NAME_FMT
-- describes, with at most 9 characters of the user and 12 of the label, has at most 31 bytes;
-- `shobject_name` writes it whole, with its terminator, at the start of a buffer of 32 bytes and
-- leaves the rest of the buffer as it is; for a NULL buffer it returns a new string of it, or
-- NULL if `asprintf` fails; and it is the name of the prose, which cuts the whole name at 31
-- characters, unless the user has more than 9 characters or the label more than 12.
pub shobject_name-Named :
    (user label : Option (List ℕ)) (buf : List ℕ) (granted : Bool)
    → length buf ≡ 32
    → Named user label buf granted
unfolding shobject_name
shobject_name-Named user label buf granted size =
    let e = name-formatted user label in
    let (short, written) = shobject_name-whole user label buf granted size in
    record {
      short = subst (λ n. length n ≤ 31) e short;
      written = written ∙ ap (λ n. some (n ++ (0 ∷ drop (suc (length n)) buf))) e;
      allocated = ap (λ n. if granted then some (n ++ (0 ∷ [])) else none) e;
      agrees = two_names user label;
    }
