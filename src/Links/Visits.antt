-- ===== src/Links/Visits.antt =====
-- crates/turbovault-graph/src/graph.rs, `LinkGraph::related_notes`: what one turn of the search adds to its queue.
use turbovault.Common.{
  ℕ, suc, ◌≤◌, ◌<◌, ◌≡◌, refl, sym, ◌∙◌, ap, Bool, true, false, some, List, [], ◌∷◌, ◌++◌, ◌&&◌,
  ◌||◌, eqb, leb, ltb, arith, inl, inr, Bool-cases, Option-cases, All, All-append, eqb→eq,
}
use turbovault.Links.Digraph.{Edge, Digraph, DigraphLaws, has}
use turbovault.Links.Queries.{edges_of, targets_of, sources_of, Search, visit, expand}
use turbovault.Links.Related.{Joined, forwards, backwards}

-- whether a node is listed, and with at most so many hops
abbrev pub named : ℕ → List (ℕ × ℕ) → Bool
named j [] = false
named j ((i, h) ∷ xs) = eqb i j || named j xs

abbrev pub reaches : ℕ → ℕ → List (ℕ × ℕ) → Bool
reaches j b [] = false
reaches j b ((i, h) ∷ xs) = (eqb i j && leb h b) || reaches j b xs

pub reaches-append :
    (j b : ℕ) (xs ys : List (ℕ × ℕ)) → reaches j b (xs ++ ys) ≡ (reaches j b xs || reaches j b ys)
reaches-append j b [] ys = refl
reaches-append j b ((i, h) ∷ xs) ys = ground (arith, reaches-append j b xs ys)

pub named-append : (j : ℕ) (xs ys : List (ℕ × ℕ)) → named j (xs ++ ys) ≡ (named j xs || named j ys)
named-append j [] ys = refl
named-append j ((i, h) ∷ xs) ys = ground (arith, named-append j xs ys)

pub reaches-named :
    (j b : ℕ) (xs : List (ℕ × ℕ))
    → All (λ p. p.1 ≤ b) xs
    → named j xs ≡ true
    → reaches j b xs ≡ true
reaches-named j b [] le h = h
reaches-named j b ((i, k) ∷ xs) le h = ground (arith, reaches-named j b xs le.1, le.0, h)

pub reaches_more :
    (j a b : ℕ) (xs : List (ℕ × ℕ)) → a ≤ b → reaches j a xs ≡ true → reaches j b xs ≡ true
reaches_more j a b [] le h = h
reaches_more j a b ((i, k) ∷ xs) le h = ground (arith, le, h, reaches_more j a b xs le)

abbrev pub Ordered : ℕ → List (ℕ × ℕ) → Type 0
Ordered k [] = Unit {0}
Ordered k ((i, h) ∷ xs) = (k ≤ h) × Ordered h xs

pub Ordered-append :
    (k m : ℕ) (xs news : List (ℕ × ℕ))
    → k ≤ m
    → Ordered k xs
    → All (λ p. p.1 ≤ m) xs
    → All (λ p. p.1 ≡ m) news
    → Ordered k (xs ++ news)
Ordered-append k m [] [] le sorted small same = tt
Ordered-append k m [] ((j, h) ∷ news) le sorted small same =
    (omega (arith, le, same.0), Ordered-append h m [] news (omega (arith, same.0)) tt tt same.1)
Ordered-append k m ((i, h) ∷ xs) news le sorted small same =
    (sorted.0, Ordered-append h m xs news small.0 sorted.1 small.1 same)

pub weaken : (a b : ℕ) (xs : List (ℕ × ℕ)) → a ≤ b → All (λ p. p.1 ≤ a) xs → All (λ p. p.1 ≤ b) xs
weaken a b [] le every = tt
weaken a b ((i, h) ∷ xs) le every = (omega (arith, le, every.0), weaken a b xs le every.1)

pub exactly : (m : ℕ) (xs : List (ℕ × ℕ)) → All (λ p. p.1 ≡ m) xs → All (λ p. p.1 ≤ m) xs
exactly m [] every = tt
exactly m ((i, h) ∷ xs) every = (omega (arith, every.0), exactly m xs every.1)

pub All-map :
    {A : Type 0} (P Q : A → Type 0) (xs : List A) → ((a : A) → P a → Q a) → All P xs → All Q xs
All-map P Q [] f every = tt
All-map P Q (x ∷ xs) f every = (f x every.0, All-map P Q xs f every.1)

module _ {C : Type 0} (d : Digraph C) where
  -- what one round of visits adds to the queue
  pub record News (k : ℕ) (before after : Search d) : Type 0 where
    pub news : List (ℕ × ℕ)
    pub queued : after.1 ≡ before.1 ++ news
    pub level : All (λ p. p.1 ≡ k) news
    pub seen : (j : ℕ) → has j after.0 ≡ (has j before.0 || named j news)

  News-trans : (k : ℕ) (a b c : Search d) → News k a b → News k b c → News k a c
  News-trans k a b c ab bc = record {
    news = ab.news ++ bc.news;
    queued =
        bc.queued ∙ ap (λ (q : List (ℕ × ℕ)). q ++ bc.news) ab.queued ∙ assoc a.1 ab.news bc.news;
    level = All-append (λ p. p.1 ≡ k) ab.news bc.news ab.level bc.level;
    seen = λ j. ground (arith, ab.seen j, bc.seen j, named-append j ab.news bc.news);
  }
    where
      assoc : (x y z : List (ℕ × ℕ)) → (x ++ y) ++ z ≡ x ++ (y ++ z)
      assoc [] y z = refl
      assoc (p ∷ x) y z = ap (◌∷◌ p) (assoc x y z)

  no_News : (k : ℕ) (s : Search d) → News k s s
  no_News k s = record { news = []; queued = sym (nil s.1); level = tt; seen = λ j. ground arith }
    where
      nil : (x : List (ℕ × ℕ)) → x ++ [] ≡ x
      nil [] = refl
      nil (p ∷ x) = ap (◌∷◌ p) (nil x)

  visit-News :
      (k : ℕ) (is : List ℕ) (s : Search d)
      → News k s (visit d k is s) × ((j : ℕ) → has j is ≡ true → has j (visit d k is s).0 ≡ true)
  unfolding visit
  visit-News k [] s = (no_News k s, λ j h. absurd (ground arith))
  visit-News k (i ∷ is) (visited, queue) = elim (Bool-cases (has i visited)) [
    | inl e ↦
        let later = visit-News k is (visited, queue) in
        rw (e, visit) (later.0, λ j h. ground (arith, h, later.1 j, later.0.seen j, e, eqb→eq j i))
    | inr e ↦
        let next : Search d = (i ∷ visited, queue ++ ((i, k) ∷ [])) in
        let later = visit-News k is next in
        let one : News k (visited, queue) next = record {
          news = (i, k) ∷ [];
          queued = refl;
          level = (refl, tt);
          seen = λ j. ground arith;
        } in
        rw (e, visit)
          (
            News-trans k (visited, queue) next _ one later.0,
            λ j h. ground (arith, h, later.1 j, later.0.seen j, eqb→eq j i),
          )
  ]

  has-targets :
      (k : ℕ) (e : Edge C) (ids : List ℕ) (g : d.G)
      → d.edge k g ≡ some e
      → has k ids ≡ true
      → has e.target (targets_of d (edges_of d ids g)) ≡ true
  unfolding edges_of
  has-targets k e [] g f h = absurd (ground (arith, h))
  has-targets k e (m ∷ ms) g f h = elim (Bool-cases (eqb k m)) [
    | inl q ↦
        let same : d.edge m g ≡ some e = ap (λ (x : ℕ). d.edge x g) (sym (eqb→eq k m q)) ∙ f in
        rw (same, edges_of) (ground arith)
    | inr q ↦
        let later = has-targets k e ms g f (ground (arith, h, q)) in
        elim (Option-cases (d.edge m g)) [
          | inl r ↦ rw (r, edges_of) later
          | inr (e2, r) ↦ rw (r, edges_of) (ground (arith, later))
        ]
  ]

  has-sources :
      (k : ℕ) (e : Edge C) (ids : List ℕ) (g : d.G)
      → d.edge k g ≡ some e
      → has k ids ≡ true
      → has e.source (sources_of d (edges_of d ids g)) ≡ true
  unfolding edges_of
  has-sources k e [] g f h = absurd (ground (arith, h))
  has-sources k e (m ∷ ms) g f h = elim (Bool-cases (eqb k m)) [
    | inl q ↦
        let same : d.edge m g ≡ some e = ap (λ (x : ℕ). d.edge x g) (sym (eqb→eq k m q)) ∙ f in
        rw (same, edges_of) (ground arith)
    | inr q ↦
        let later = has-sources k e ms g f (ground (arith, h, q)) in
        elim (Option-cases (d.edge m g)) [
          | inl r ↦ rw (r, edges_of) later
          | inr (e2, r) ↦ rw (r, edges_of) (ground (arith, later))
        ]
  ]

  module _ (laws : DigraphLaws d) where
    -- the neighbours of a node are among the targets and the sources that are visited
    joined_listed :
        (g : d.G) (i j : ℕ)
        → Joined d g i j
        → (has j (targets_of d (edges_of d (d.edges i g) g))
            || has j (sources_of d (edges_of d (d.edges_incoming i g) g)))
          ≡ true
    joined_listed g i j (forwards k e f) =
        let leaving : has k (d.edges e.source g) ≡ true =
          laws.has_edges e.source k g ∙ rw f (ground arith) in
        ground (arith, has-targets k e (d.edges e.source g) g f leaving)
    joined_listed g i j (backwards k e f) =
        let entering : has k (d.edges_incoming e.target g) ≡ true =
          laws.has_edges_incoming e.target k g ∙ rw f (ground arith) in
        ground (arith, has-sources k e (d.edges_incoming e.target g) g f entering)

    pub expand-News :
        (g : d.G) (max i k : ℕ) (s : Search d)
        → News (suc k) s (expand d max i k g s)
          × (k < max → (j : ℕ) → Joined d g i j → has j (expand d max i k g s).0 ≡ true)
    unfolding expand
    expand-News g max i k s =
        let targets = targets_of d (edges_of d (d.edges i g) g) in
        let sources = sources_of d (edges_of d (d.edges_incoming i g) g) in
        let out = visit-News (suc k) targets s in
        let middle = visit d (suc k) targets s in
        let into = visit-News (suc k) sources middle in
        elim (Bool-cases (ltb k max)) [
          | inr e ↦ rw (e, expand) (no_News (suc k) s, λ lt j link. absurd (ground (arith, e, lt)))
          | inl e ↦
              rw (e, expand)
                (
                  News-trans (suc k) s middle _ out.0 into.0,
                  λ lt j link.
                      ground (arith, joined_listed g i j link, out.1 j, into.1 j, into.0.seen j),
                )
        ]
