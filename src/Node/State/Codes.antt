-- ===== src/Node/State/Codes.antt =====
-- The connect codes that a new node keeps.
use aether_link.Base.{
  ◌≡◌, refl, Bool, not, ◌&&◌, ◌||◌, ◌==◌, String, string_eq, contains, List, [], ◌∷◌, map, retain,
  arith,
}
use aether_link.Base.Text.{is_empty_str, trim}
use aether_link.Node.State.{insert_string, sort_strings, dedup_after, dedup, clean_codes}

contains-retain :
    (p : String → Bool) (xs : List String) (s : String)
    → contains (retain p xs) s ≡ (p s && contains xs s)
contains-retain p [] s = ground arith
contains-retain p (x ∷ xs) s = ground (arith, contains-retain p xs s)

contains-insert_string :
    (t : String) (xs : List String) (s : String)
    → contains (insert_string t xs) s ≡ (s == t || contains xs s)
unfolding insert_string
contains-insert_string t [] s = refl
contains-insert_string t (x ∷ xs) s = ground (arith, contains-insert_string t xs s)

contains-sort_strings :
    (xs : List String) (s : String) → contains (sort_strings xs) s ≡ contains xs s
unfolding sort_strings
contains-sort_strings [] s = refl
contains-sort_strings (x ∷ xs) s =
    ground (arith, contains-insert_string x (sort_strings xs) s, contains-sort_strings xs s)

contains-dedup_after :
    (last : String) (xs : List String) (s : String)
    → (s == last || contains (dedup_after last xs) s) ≡ (s == last || contains xs s)
unfolding dedup_after
contains-dedup_after last [] s = refl
contains-dedup_after last (x ∷ xs) s =
    ground (arith, contains-dedup_after last xs s, contains-dedup_after x xs s)

contains-dedup : (xs : List String) (s : String) → contains (dedup xs) s ≡ contains xs s
unfolding dedup
contains-dedup [] s = refl
contains-dedup (x ∷ xs) s = contains-dedup_after x xs s

-- A node keeps exactly the trimmed codes it is given, but for empty ones and the text of its own peer id.
clean_codes_lem :
    (own : String) (codes : List String) (s : String)
    → contains (clean_codes own codes) s
      ≡ (not (s == own) && (not (is_empty_str s) && contains (map trim codes) s))
unfolding clean_codes
clean_codes_lem own codes s =
    let given = retain (λ x. not (is_empty_str x)) (map trim codes) in
    ground (
      arith,
      contains-retain (λ x. not (x == own)) (dedup (sort_strings given)) s,
      contains-dedup (sort_strings given) s,
      contains-sort_strings given s,
      contains-retain (λ x. not (is_empty_str x)) (map trim codes) s,
    )
