-- ===== src/Dns/Keyword.antt =====
-- The keyword search reads every record of the three sections, in either case.
use nawala_checker.Common.{
  ◌≡◌, inl, inr, refl, ◌∙◌, sym, ◌↔◌, Bool, true, ◌||◌, List, [], ◌∷◌, ◌++◌, arith, Bytes, Option,
  none, some, map, any, Any, Bool-cases,
}
use nawala_checker.Strings.{Unicode, is_ascii, to_lower, lower_byte, contains}
use nawala_checker.Strings.Case.{to_lower_ascii, is_ascii-map_lower, map-lower_byte_idem}
use nawala_checker.Strings.Search.{Infix, contains_iff}
use nawala_checker.Network.{Response}
use nawala_checker.Dns.{contains_keyword}

any-Any :
    {A : Type 0} {P : A → Type 0} (p : A → Bool) (xs : List A)
    → ((x : A) → p x ≡ true → P x)
    → any p xs ≡ true
    → Any P xs
any-Any p [] h e = cc
any-Any p (x ∷ xs) h e = elim (Bool-cases (p x)) [
  | inl q ↦ inl (h x q)
  | inr q ↦ inr (any-Any p xs h (ground arith))
]

Any-any :
    {A : Type 0} {P : A → Type 0} (p : A → Bool) (xs : List A)
    → ((x : A) → P x → p x ≡ true)
    → Any P xs
    → any p xs ≡ true
Any-any p [] h a = elim a [ ]
Any-any p (x ∷ xs) h (inl q) = ground (arith, h x q)
Any-any p (x ∷ xs) h (inr q) = ground (arith, Any-any p xs h q)

any-append :
    {A : Type 0} (p : A → Bool) (xs ys : List A) → any p (xs ++ ys) ≡ (any p xs || any p ys)
any-append p [] ys = refl
any-append p (x ∷ xs) ys = ground (arith, any-append p xs ys)

-- Some record of the answer, authority or additional section holds the keyword, both read in lower
-- case.
abbrev pub Mentions : Unicode → Response → Bytes → Type 0
Mentions u msg keyword =
    Any (λ rr. Infix (to_lower u keyword) (to_lower u rr)) (msg.answer ++ (msg.ns ++ msg.extra))

module _ (u : Unicode) (msg : Response) (keyword : Bytes) where
  abbrev hit : Bytes → Bool
  hit rr = contains (to_lower u rr) (to_lower u keyword)

  contains_keyword-any :
      contains_keyword u (some msg) keyword ≡ any hit (msg.answer ++ (msg.ns ++ msg.extra))
  unfolding contains_keyword
  contains_keyword-any =
      ground
        (arith, any-append hit msg.answer (msg.ns ++ msg.extra), any-append hit msg.ns msg.extra)

  -- Of a response the search returns true exactly when the text of some record of the three
  -- sections has the keyword inside, both in lower case.
  pub contains_keyword_iff : (contains_keyword u (some msg) keyword ≡ true) ↔ Mentions u msg keyword
  contains_keyword_iff = (
    λ e.
        any-Any hit (msg.answer ++ (msg.ns ++ msg.extra))
          (λ rr. (contains_iff (to_lower u rr) (to_lower u keyword)).0)
          (sym contains_keyword-any ∙ e),
    λ a.
        contains_keyword-any
        ∙ Any-any hit (msg.answer ++ (msg.ns ++ msg.extra))
            (λ rr. (contains_iff (to_lower u rr) (to_lower u keyword)).1) a,
  )

-- An ASCII keyword may be written in either case: in lower case it finds what it finds as written.
contains_keyword-lower :
    (u : Unicode) (r : Option Response) (keyword : Bytes)
    → is_ascii keyword ≡ true
    → contains_keyword u r (map lower_byte keyword) ≡ contains_keyword u r keyword
unfolding contains_keyword
contains_keyword-lower u none keyword h = refl
contains_keyword-lower u (some msg) keyword h = rw (
    to_lower_ascii u (map lower_byte keyword) (is_ascii-map_lower keyword ∙ h)
    ∙ map-lower_byte_idem keyword
    ∙ sym (to_lower_ascii u keyword h))
