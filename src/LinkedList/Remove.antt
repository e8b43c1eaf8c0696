-- ===== src/LinkedList/Remove.antt =====
-- lib/kernel/list.c: list_remove takes an element out of the list, and changes nothing else.
use cs162proj.Prelude.{
  ℕ, ◌≡◌, ◌≢◌, ◌∙◌, sym, subst, List, [], ◌∷◌, ◌++◌, some, true, arith, ◌==◌, if◌then◌else◌,
}
use cs162proj.LinkedList.{Heap, tail_of, is_interior, list_remove, remove_links}
use cs162proj.LinkedList.Chains.{
  Chain, NotIn, Distinct, nodes, IsList, Distinct-split, Distinct-split, All-split, All-append,
  All-imp, Chain-split, Chain-join, Chain-back, Chain-front, SameNext, SamePrev,
}
use cs162proj.LinkedList.Cut.{
  first_of, rest_of, cut, nodes_cut, nodes_mid, IsApart, apart_lem, ends_apart, Keeps,
}

module _ (h : Heap) (us : List ℕ) (a e b : ℕ) (vs : List ℕ) (c : Chain h (us ++ (a ∷ e ∷ b ∷ vs)))
    (p : IsApart us a b vs) (n : NotIn e (us ++ (a ∷ b ∷ vs))) where
  pub links : (h.prev e ≡ a) × (h.next e ≡ b)
  links = let (_, q) = Chain-split h us a (e ∷ b ∷ vs) c in (q.1, q.2.0)

  fresh : (e ≢ a) × (e ≢ b)
  fresh =
      let (q, r) = All-split (λ x. x ≢ e) us (a ∷ b ∷ vs) n in
      ((λ i. r.0 (sym i)), (λ i. r.1.0 (sym i)))

  pub remove_next : (x : ℕ) → (remove_links e h).next x ≡ (if x == a then b else h.next x)
  unfolding remove_links
  remove_next x = ground (arith, links, fresh)

  remove_prev : (x : ℕ) → (remove_links e h).prev x ≡ (if x == b then a else h.prev x)
  unfolding remove_links
  remove_prev x = ground (arith, links, fresh)

  pub same_next : (x : ℕ) → x ≢ a → (remove_links e h).next x ≡ h.next x
  same_next x q = ground (arith, remove_next x)

  pub same_prev : (x : ℕ) → x ≢ b → (remove_links e h).prev x ≡ h.prev x
  same_prev x q = ground (arith, remove_prev x)

  pub returned : (remove_links e h).next e ≡ b
  returned = ground (arith, remove_next e, links, fresh)

  pub remove-Chain : Chain (remove_links e h) (us ++ (a ∷ b ∷ vs))
  remove-Chain =
      let (front, back) = Chain-split h us a (e ∷ b ∷ vs) c in
      let keep_next = λ (l : List ℕ) (q : NotIn a l).
        All-imp (λ x. x ≢ a) (SameNext h (remove_links e h)) l same_next q in
      let keep_prev = λ (l : List ℕ) (q : NotIn b l).
        All-imp (λ x. x ≢ b) (SamePrev h (remove_links e h)) l same_prev q in
      Chain-join (remove_links e h) us a (b ∷ vs)
        (Chain-front h (remove_links e h) us a (keep_next us p.a_us)
          (All-append (SamePrev h (remove_links e h)) us (a ∷ []) (keep_prev us p.b_us)
            (same_prev a (λ i. p.a_back.0 (sym i)), tt))
          front)
        (
          ground (arith, remove_next a),
          ground (arith, remove_prev b),
          Chain-back h (remove_links e h) b vs (keep_next (b ∷ vs) p.a_back) (keep_prev vs p.b_vs)
              back.2.2,
        )

inside :
    (h : Heap) (a e b : ℕ)
    → a ≢ 0
    → e ≢ 0
    → b ≢ 0
    → h.prev e ≡ a
    → h.next e ≡ b
    → is_interior h e ≡ true
unfolding is_interior
inside h a e b p q r i j = ground arith

-- In a heap that holds the list `xs`, an element and `ys`: list_remove of the element fails no
-- assertion and returns the first of `ys`, or the tail if there is none; the heap then holds `xs ++ ys`,
-- and every element outside of these, the removed one too, keeps its links.
pub list_remove_lem :
    (h : Heap) (list : ℕ) (xs : List ℕ) (e : ℕ) (ys : List ℕ)
    → IsList h list (xs ++ (e ∷ ys))
    → (h' : Heap) × (list_remove e h ≡ some (h', first_of ys list))
      × IsList h' list (xs ++ ys)
      × Keeps h h' (nodes list (xs ++ ys))
unfolding list_remove
list_remove_lem h list xs e ys v =
    let (us, a, c) = cut list xs ys in
    let b = first_of ys list in
    let vs = rest_of ys list in
    let here = nodes_cut list xs ys us a b vs c (e ∷ []) in
    let after = nodes_cut list xs ys us a b vs c [] in
    let chain = subst (Chain h) here v.chain in
    let (n0, n1, distinct, _) =
      Distinct-split (list ∷ xs) e (ys ++ (tail_of list ∷ []))
        (subst Distinct (nodes_mid list xs (e ∷ ys)) v.distinct) in
    let n : NotIn e (nodes list (xs ++ ys)) =
      subst (NotIn e) (sym (nodes_mid list xs ys))
        (All-append (λ x. x ≢ e) (list ∷ xs) (ys ++ (tail_of list ∷ [])) n0 n1) in
    let distinct' : Distinct (nodes list (xs ++ ys)) =
      subst Distinct (sym (nodes_mid list xs ys)) distinct in
    let p = apart_lem us a b vs (subst Distinct after distinct') in
    let n' = subst (NotIn e) after n in
    let (nz_us, nz_a, nz_e, nz_b, nz_vs) = nonzero us a e b vs (subst (NotIn 0) here v.real) in
    let (list_b, tail_a) = ends_apart list xs ys us a b vs c p in
    let (prev_e, next_e) = links h us a e b vs chain p n' in
    (
      remove_links e h,
      rw (inside h a e b nz_a nz_e nz_b prev_e next_e, returned h us a e b vs chain p n'),
      record {
        chain =
            subst (Chain (remove_links e h)) (sym after) (remove-Chain h us a e b vs chain p n');
        distinct = distinct';
        real =
            subst (NotIn 0) (sym after)
              (All-append (λ x. x ≢ 0) us (a ∷ b ∷ vs) nz_us (nz_a, (nz_b, nz_vs)));
        head_end = same_prev h us a e b vs chain p n' list list_b ∙ v.head_end;
        tail_end = same_next h us a e b vs chain p n' (tail_of list) tail_a ∙ v.tail_end;
      },
      λ x q.
          let (_, r) = All-split (λ y. y ≢ x) us (a ∷ b ∷ vs) (subst (NotIn x) after q) in
          (
            same_next h us a e b vs chain p n' x (λ i. r.0 (sym i)),
            same_prev h us a e b vs chain p n' x (λ i. r.1.0 (sym i)),
          ),
    )
  where
    nonzero :
        (us : List ℕ) (a e b : ℕ) (vs : List ℕ)
        → NotIn 0 (us ++ (a ∷ e ∷ b ∷ vs))
        → NotIn 0 us × (a ≢ 0) × (e ≢ 0) × (b ≢ 0) × NotIn 0 vs
    nonzero us a e b vs r =
        let (p, q) = All-split (λ x. x ≢ 0) us (a ∷ e ∷ b ∷ vs) r in
        (p, q.0, q.1.0, q.1.1.0, q.1.1.1)
