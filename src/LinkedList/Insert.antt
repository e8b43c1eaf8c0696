-- ===== src/LinkedList/Insert.antt =====
-- lib/kernel/list.c: list_insert puts an element into the list, and changes nothing else.
use cs162proj.Prelude.{
  ℕ, ◌≡◌, ◌≢◌, ◌∙◌, sym, subst, List, [], ◌∷◌, ◌++◌, some, true, ◌||◌, arith, ◌==◌, ==_ne,
  if◌then◌else◌,
}
use cs162proj.LinkedList.{Heap, tail_of, is_interior, is_tail, list_insert, insert_links}
use cs162proj.LinkedList.Chains.{
  Chain, NotIn, Distinct, nodes, IsList, Distinct-insert, All-split, All-append, All-imp, All-and,
  All-insert, Chain-split, Chain-join, Chain-back, Chain-front, SameNext, SamePrev,
}
use cs162proj.LinkedList.Cut.{
  first_of, rest_of, cut, nodes_cut, nodes_mid, IsApart, apart_lem, ends_apart, Keeps,
}

module _ (h : Heap) (us : List ℕ) (a b e : ℕ) (vs : List ℕ) (c : Chain h (us ++ (a ∷ b ∷ vs)))
    (p : IsApart us a b vs) (n : NotIn e (us ++ (a ∷ b ∷ vs))) where
  links : (h.next a ≡ b) × (h.prev b ≡ a)
  links = let (_, q) = Chain-split h us a (b ∷ vs) c in (q.0, q.1)

  fresh : (e ≢ a) × (e ≢ b) × NotIn e us × NotIn e vs
  fresh =
      let (q, r) = All-split (λ x. x ≢ e) us (a ∷ b ∷ vs) n in
      ((λ i. r.0 (sym i)), (λ i. r.1.0 (sym i)), q, r.1.1)

  insert_next :
      (x : ℕ) → (insert_links b e h).next x ≡ (if x == a then e else if x == e then b else h.next x)
  unfolding insert_links
  insert_next x = ground (arith, links, fresh)

  insert_prev :
      (x : ℕ) → (insert_links b e h).prev x ≡ (if x == b then e else if x == e then a else h.prev x)
  unfolding insert_links
  insert_prev x = ground (arith, links, fresh)

  same_next : (x : ℕ) → (x ≢ a) × (x ≢ e) → (insert_links b e h).next x ≡ h.next x
  same_next x q = ground (arith, insert_next x)

  same_prev : (x : ℕ) → (x ≢ b) × (x ≢ e) → (insert_links b e h).prev x ≡ h.prev x
  same_prev x q = ground (arith, insert_prev x)

  insert-Chain : Chain (insert_links b e h) (us ++ (a ∷ e ∷ b ∷ vs))
  insert-Chain =
      let (front, back) = Chain-split h us a (b ∷ vs) c in
      let (ea, eb, eus, evs) = fresh in
      let keep_next = λ (l : List ℕ) (q : NotIn a l) (r : NotIn e l).
        All-imp (λ x. (x ≢ a) × (x ≢ e)) (SameNext h (insert_links b e h)) l same_next
          (All-and (λ x. x ≢ a) (λ x. x ≢ e) l q r) in
      let keep_prev = λ (l : List ℕ) (q : NotIn b l) (r : NotIn e l).
        All-imp (λ x. (x ≢ b) × (x ≢ e)) (SamePrev h (insert_links b e h)) l same_prev
          (All-and (λ x. x ≢ b) (λ x. x ≢ e) l q r) in
      Chain-join (insert_links b e h) us a (e ∷ b ∷ vs)
        (Chain-front h (insert_links b e h) us a (keep_next us p.a_us eus)
          (All-append (SamePrev h (insert_links b e h)) us (a ∷ []) (keep_prev us p.b_us eus)
            (same_prev a ((λ i. p.a_back.0 (sym i)), (λ i. ea (sym i))), tt))
          front)
        (
          ground (arith, insert_next a),
          ground (arith, insert_prev e, eb),
          (
            ground (arith, insert_next e, ea),
            ground (arith, insert_prev b),
            Chain-back h (insert_links b e h) b vs
                (keep_next (b ∷ vs) p.a_back ((λ i. eb (sym i)), evs)) (keep_prev vs p.b_vs evs)
                back.2,
          ),
        )

may_precede :
    (h : Heap) (a b : ℕ) → a ≢ 0 → b ≢ 0 → h.prev b ≡ a → (is_interior h b || is_tail h b) ≡ true
unfolding is_interior is_tail
may_precede h a b p q e = ground arith

-- In a heap that holds the list `xs ++ ys`, for an element outside of it: list_insert before the
-- first of `ys`, or before the tail if there is none, fails no assertion, and the heap then holds
-- `xs`, the element and `ys`; every element outside of these keeps its links.
pub list_insert_lem :
    (h : Heap) (list : ℕ) (xs ys : List ℕ) (e : ℕ)
    → IsList h list (xs ++ ys)
    → NotIn e (nodes list (xs ++ ys))
    → e ≢ 0
    → (h' : Heap) × (list_insert (first_of ys list) e h ≡ some h')
      × IsList h' list (xs ++ (e ∷ ys))
      × Keeps h h' (nodes list (xs ++ (e ∷ ys)))
unfolding list_insert
list_insert_lem h list xs ys e v n real =
    let (us, a, c) = cut list xs ys in
    let b = first_of ys list in
    let vs = rest_of ys list in
    let here = nodes_cut list xs ys us a b vs c [] in
    let after = nodes_cut list xs ys us a b vs c (e ∷ []) in
    let chain = subst (Chain h) here v.chain in
    let p = apart_lem us a b vs (subst Distinct here v.distinct) in
    let n' = subst (NotIn e) here n in
    let (_, nonzero) = All-split (λ x. x ≢ 0) us (a ∷ b ∷ vs) (subst (NotIn 0) here v.real) in
    let (list_b, tail_a) = ends_apart list xs ys us a b vs c p in
    let tail_e = (All-split (λ x. x ≢ e) (xs ++ ys) (tail_of list ∷ []) n.1).1.0 in
    (
      insert_links b e h,
      rw (
        may_precede h a b nonzero.0 nonzero.1.0 (links h us a b e vs chain p n').1,
        ==_ne e 0 real,
      ),
      record {
        chain =
            subst (Chain (insert_links b e h)) (sym after) (insert-Chain h us a b e vs chain p n');
        distinct = subst Distinct (sym (nodes_mid list xs (e ∷ ys))) (
            Distinct-insert (list ∷ xs) e (ys ++ (tail_of list ∷ []))
              (subst Distinct (nodes_mid list xs ys) v.distinct)
              (subst (NotIn e) (nodes_mid list xs ys) n));
        real = subst (NotIn 0) (sym (nodes_mid list xs (e ∷ ys))) (
            All-insert (λ x. x ≢ 0) (list ∷ xs) e (ys ++ (tail_of list ∷ [])) real
              (subst (NotIn 0) (nodes_mid list xs ys) v.real));
        head_end = same_prev h us a b e vs chain p n' list (list_b, n.0) ∙ v.head_end;
        tail_end = same_next h us a b e vs chain p n' (tail_of list) (tail_a, tail_e) ∙ v.tail_end;
      },
      λ x q.
          let (_, r) = All-split (λ y. y ≢ x) us (a ∷ e ∷ b ∷ vs) (subst (NotIn x) after q) in
          (
            same_next h us a b e vs chain p n' x ((λ i. r.0 (sym i)), (λ i. r.1.0 (sym i))),
            same_prev h us a b e vs chain p n' x ((λ i. r.1.1.0 (sym i)), (λ i. r.1.0 (sym i))),
          ),
    )
