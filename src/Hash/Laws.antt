-- ===== src/Hash/Laws.antt =====
-- lib/kernel/hash.c: what the operations of a table do to what is found in it.

use cs162proj.Prelude.{
  ◌+◌, ℕ, ◌<◌, ◌^◌, ◌≡◌, ◌∙◌, ap, refl, inl, inr, Option, some, none, Bool, true, false, arith,
  if◌then◌else◌, Bool-cases, ◌>>=◌,
}
use cs162proj.Hash.{
  Hash, equal, insert_elem, remove_elem, rehash, hash_find, hash_insert, hash_replace, hash_delete,
}
use cs162proj.Hash.Buckets.{IsKey, equal_refl}
use cs162proj.Hash.Elements.{IsTable, rehash_lem, insert_elem_lem, remove_elem_lem, find_same}

module _ (hash : ℕ → ℕ) (less : ℕ → ℕ → Bool) where
  -- The operation ends with `old` and a table in which `f` tells what is found.
  pub record Gives (r : Option (Hash × Option ℕ)) (old : Option ℕ) (f : ℕ → Option ℕ) : Type 0 where
    pub after : Hash
    pub returned : r ≡ some (after, old)
    pub table : IsTable hash less after
    pub found : (e : ℕ) → hash_find hash less after e ≡ f e

  module _ (key : IsKey hash less) where
    -- A table in which `f` tells what is found, after a rehash.
    changed :
        (got : Bool) (h : Hash) (f : ℕ → Option ℕ)
        → IsTable hash less h
        → ((e : ℕ) → hash_find hash less h e ≡ f e)
        → (old : Option ℕ) → Gives (rehash hash less got h >>= λ h'. some (h', old)) old f
    changed got h f b view old =
        let (h', e, b', same) = rehash_lem hash less key got h b in
        record { after = h'; returned = rw e refl; table = b'; found = λ x. same x ∙ view x }

    insert_case :
        (got : Bool) (h : Hash) (new : ℕ) (old : Option ℕ)
        → IsTable hash less h
        → h.elem_cnt + 1 < 2 ^ 32
        → hash_find hash less h new ≡ old
        → Gives
            (rehash hash less got (elim old [ none ↦ insert_elem hash less h new | some x ↦ h ])
              >>= λ h'. some (h', old))
            old
            (λ e. elim old [
              | none ↦ if equal hash less new e then some new else hash_find hash less h e
              | some x ↦ hash_find hash less h e
            ])
    insert_case got h new none b bound at =
        let (b', view) = insert_elem_lem hash less key h new b bound at in
        changed got (insert_elem hash less h new) _ b' view none
    insert_case got h new (some x) b bound at = changed got h _ b (λ e. refl) (some x)

    replace_case :
        (got : Bool) (h : Hash) (new : ℕ) (old : Option ℕ)
        → IsTable hash less h
        → h.elem_cnt + 1 < 2 ^ 32
        → hash_find hash less h new ≡ old
        → Gives
            (rehash hash less got (
                insert_elem hash less
                  (elim old [ none ↦ h | some x ↦ remove_elem hash less h x ])
                  new)
              >>= λ h'. some (h', old))
            old
            (λ e. if equal hash less new e then some new else hash_find hash less h e)
    replace_case got h new none b bound at =
        let (b', view) = insert_elem_lem hash less key h new b bound at in
        changed got (insert_elem hash less h new) _ b' view none
    replace_case got h new (some x) b bound at =
        let (gone, smaller, rest) =
          remove_elem_lem hash less key h new x b (omega (arith, bound)) at in
        let fits : (remove_elem hash less h x).elem_cnt + 1 < 2 ^ 32 =
          omega (arith, bound, smaller) in
        let absent = rest new ∙ rw (equal_refl hash less key new) refl in
        let (b', view) =
          insert_elem_lem hash less key (remove_elem hash less h x) new gone fits absent in
        changed got (insert_elem hash less (remove_elem hash less h x) new) _ b'
          (λ e.
            view e
            ∙ ap (λ o. if equal hash less new e then some new else o) (rest e)
            ∙ twice _ (equal hash less new e))
          (some x)
      where
        twice :
            (o : Option ℕ) (c : Bool)
            → (if c then some new else if c then none else o) ≡ (if c then some new else o)
        twice o true = refl
        twice o false = refl

    delete_case :
        (got : Bool) (h : Hash) (e : ℕ) (old : Option ℕ)
        → IsTable hash less h
        → h.elem_cnt < 2 ^ 32
        → hash_find hash less h e ≡ old
        → Gives
            (elim old [
              | none ↦ some (h, none)
              | some found ↦ rehash hash less got (remove_elem hash less h found) >>= λ h'.
                  some (h', some found)
            ])
            old
            (λ c. if equal hash less e c then none else hash_find hash less h c)
    delete_case got h e none b bound at = record {
      after = h;
      returned = refl;
      table = b;
      found = λ c. elim (Bool-cases (equal hash less e c)) [
        | inl t ↦ rw (t, ← find_same hash less key h e c t, at) refl
        | inr f ↦ rw f refl
      ];
    }
    delete_case got h e (some x) b bound at =
        let (gone, smaller, rest) = remove_elem_lem hash less key h e x b bound at in
        changed got (remove_elem hash less h x) _ gone rest (some x)

    -- Where equal elements have one hash value and `equal` is reflexive and transitive: at a table
    -- whose elements are in their buckets, are not equal to each other, and are counted by elem_cnt,
    -- which can count one more, hash_insert, hash_replace and hash_delete always
    -- end, whether rehash gets memory or not, with such a table again, and give what was found for the
    -- element before: hash_insert adds the new element only if no equal one was found, hash_replace
    -- makes it the one that is found, and hash_delete makes nothing be found for it, while hash_find
    -- finds for all other elements what it found before.
    pub table_lem :
        (got : Bool) (h : Hash) (new : ℕ)
        → IsTable hash less h
        → h.elem_cnt + 1 < 2 ^ 32
        → Gives (hash_insert hash less got h new) (hash_find hash less h new) (λ e.
          elim (hash_find hash less h new) [
            | none ↦ if equal hash less new e then some new else hash_find hash less h e
            | some x ↦ hash_find hash less h e
          ])
          × Gives
              (hash_replace hash less got h new)
              (hash_find hash less h new)
              (λ e. if equal hash less new e then some new else hash_find hash less h e)
          × Gives
              (hash_delete hash less got h new)
              (hash_find hash less h new)
              (λ e. if equal hash less new e then none else hash_find hash less h e)
    unfolding hash_insert hash_replace hash_delete
    table_lem got h new b bound =
        let old = hash_find hash less h new in
        (
          insert_case got h new old b bound refl,
          replace_case got h new old b bound refl,
          delete_case got h new old b (omega (arith, bound)) refl,
        )
