-- ===== src/Links/Complete.antt =====
-- crates/turbovault-graph/src/graph.rs, `LinkGraph::related_notes`: no note within the hops is missed.
use turbovault.Common.{
  ℕ, zero, suc, ◌≤◌, ◌<◌, String, ◌≡◌, refl, sym, ◌∙◌, ap, subst, true, some, List, [], ◌∷◌, ◌++◌,
  ◌&&◌, ◌||◌, eqb, leb, ltb, if◌then◌else◌, arith, inl, inr, Bool-cases, All, All-append, eqb→eq,
  ◌≢◌, contains, eq_refl,
}
use turbovault.Links.Digraph.{Digraph, DigraphLaws, has}
use turbovault.Links.Graph.{LinkGraph}
use turbovault.Links.Queries.{opt_cons, Search, expand, related_loop, related_notes}
use turbovault.Links.Related.{Joined, Walk, stays, hops}
use turbovault.Links.Visits.{
  named, reaches, Ordered, reaches-append, named-append, reaches-named, reaches_more,
  Ordered-append, weaken, exactly, All-map, expand-News,
}

module _ {C : Type 0} (d : Digraph C) (laws : DigraphLaws d) where
  abbrev Closed : d.G → ℕ → List (ℕ × ℕ) → List (ℕ × ℕ) → ℕ × ℕ → Type 0
  Closed g max queue finished (i, h) =
      h < max
      → (j : ℕ) → Joined d g i j
      → (reaches j (suc h) finished || reaches j (suc h) queue) ≡ true

  abbrev Rooted : ℕ → ℕ × ℕ → Type 0
  Rooted start (i, h) = h ≡ 0 → i ≡ start

  abbrev Told : d.G → List String → ℕ × ℕ → Type 0
  Told g related (i, h) =
      0 < h → (path : String) → d.node i g ≡ some path → contains related path ≡ true

  -- what holds between two turns, the nodes that were taken having `k` hops at most
  record Going (g : d.G) (start max k : ℕ) (search : Search d) (finished : List (ℕ × ℕ))
      (related : List String) : Type 0 where
    same : (j : ℕ) → has j search.0 ≡ (named j finished || named j search.1)
    old : All (λ p. p.1 ≤ k) finished
    small : All (λ p. p.1 ≤ suc k) search.1
    sorted : Ordered k search.1
    closed : All (Closed g max search.1 finished) finished
    rooted : All (Rooted start) finished
    rooted_queue : All (Rooted start) search.1
    told : All (Told g related) finished
    begun : (reaches start 0 finished || reaches start 0 search.1) ≡ true

  contains-append :
      (xs ys : List String) (p : String) → contains (xs ++ ys) p ≡ (contains xs p || contains ys p)
  contains-append [] ys p = refl
  contains-append (x ∷ xs) ys p = ground (arith, contains-append xs ys p)

  abbrev told_next : d.G → ℕ → ℕ → List String → List String
  told_next g i h related = if ltb 0 h then related ++ opt_cons (d.node i g) [] else related

  told_next-keeps :
      (g : d.G) (i h : ℕ) (related : List String) (p : String)
      → contains related p ≡ true
      → contains (told_next g i h related) p ≡ true
  told_next-keeps g i h related p c =
      ground (arith, c, contains-append related (opt_cons (d.node i g) []) p)

  told_next-adds :
      (g : d.G) (i h : ℕ) (related : List String) → Told g (told_next g i h related) (i, h)
  told_next-adds g i h related lt path e =
      let more : ltb 0 h ≡ true = ground (arith, lt) in
      rw (more, e) (ground (arith, contains-append related (path ∷ []) path, eq_refl path))

  turn-Going :
      (g : d.G) (start max k i h : ℕ) (visited : List ℕ) (rest finished : List (ℕ × ℕ))
      (related : List String)
      → Going g start max k (visited, (i, h) ∷ rest) finished related
      → Going g start max h
          (expand d max i h g (visited, rest))
          ((i, h) ∷ finished)
          (told_next g i h related)
  turn-Going g start max k i h visited rest finished related inv =
      let s : Search d = expand d max i h g (visited, rest) in
      let found = expand-News d laws g max i h (visited, rest) in
      let news = found.0.news in
      let up : k ≤ h = inv.sorted.0 in
      let old : All (λ p. p.1 ≤ h) ((i, h) ∷ finished) =
        (omega arith, weaken k h finished up inv.old) in
      let rest_small = weaken (suc k) (suc h) rest (omega (arith, up)) inv.small.1 in
      let small : All (λ p. p.1 ≤ suc h) s.1 =
        subst (λ q. All (λ p. p.1 ≤ suc h) q) (sym found.0.queued)
          (All-append (λ p. p.1 ≤ suc h) rest news rest_small
            (exactly (suc h) news found.0.level)) in
      let same : (j : ℕ) → has j s.0 ≡ (named j ((i, h) ∷ finished) || named j s.1) = λ j.
        rw found.0.queued (ground (arith, found.0.seen j, inv.same j, named-append j rest news)) in
      record {
        same = same;
        old = old;
        small = small;
        sorted =
            subst (λ q. Ordered h q) (sym found.0.queued)
              (Ordered-append h (suc h) rest news (omega arith) inv.sorted.1 rest_small
                found.0.level);
        closed = (
          λ lt j link. ground (
            arith,
            found.1 lt j link,
            same j,
            reaches-named j (suc h) ((i, h) ∷ finished)
                (weaken h (suc h) ((i, h) ∷ finished) (omega arith) old),
            reaches-named j (suc h) s.1 small,
          ),
          All-map (Closed g max ((i, h) ∷ rest) finished) (Closed g max s.1 ((i, h) ∷ finished))
              finished
              (λ p c lt j link.
                rw found.0.queued
                  (ground (arith, c lt j link, reaches-append j (suc p.1) rest news)))
              inv.closed,
        );
        rooted = (inv.rooted_queue.0, inv.rooted);
        rooted_queue =
            subst (λ q. All (Rooted start) q) (sym found.0.queued)
              (All-append (Rooted start) rest news inv.rooted_queue.1 (
                All-map (λ p. p.1 ≡ suc h) (Rooted start) news
                  (λ p e z. absurd (omega (arith, e, z))) found.0.level));
        told = (
          told_next-adds g i h related,
          All-map (Told g related) (Told g (told_next g i h related)) finished
              (λ p t lt path e. told_next-keeps g i h related path (t lt path e)) inv.told,
        );
        begun = rw found.0.queued (ground (arith, inv.begun, reaches-append start 0 rest news));
      }

  closed_at :
      (g : d.G) (max i j k : ℕ) (finished xs : List (ℕ × ℕ))
      → All (Closed g max [] finished) xs
      → reaches i k xs ≡ true
      → k < max
      → Joined d g i j
      → reaches j (suc k) finished ≡ true
  closed_at g max i j k finished [] closed h lt link = absurd (ground (arith, h))
  closed_at g max i j k finished ((a, b) ∷ xs) closed h lt link =
      elim (Bool-cases (eqb a i && leb b k)) [
        | inr e ↦ closed_at g max i j k finished xs closed.1 (ground (arith, h, e)) lt link
        | inl e ↦
            let at : i ≡ a = ground (arith, e) in
            let less : b ≤ k = ground (arith, e) in
            let near = closed.0 (omega (arith, less, lt)) j (subst (λ x. Joined d g x j) at link) in
            reaches_more j (suc b) (suc k) finished (omega (arith, less)) (ground (arith, near))
      ]

  Walk-reaches :
      (g : d.G) (start max m k i : ℕ) (visited : List ℕ) (finished : List (ℕ × ℕ))
      (related : List String)
      → Going g start max m (visited, []) finished related
      → Walk d g start k i
      → k ≤ max
      → reaches i k finished ≡ true
  Walk-reaches g start max m k i visited finished related inv stays le = ground (arith, inv.begun)
  Walk-reaches g start max m k i visited finished related inv (hops n a b walk link) le =
      closed_at g max a b n finished finished inv.closed
        (Walk-reaches g start max m n a visited finished related inv walk (omega (arith, le)))
        (omega (arith, le)) link

  Told-contains :
      (g : d.G) (start i k : ℕ) (related : List String) (path : String) (xs : List (ℕ × ℕ))
      → All (Told g related) xs
      → All (Rooted start) xs
      → reaches i k xs ≡ true
      → i ≢ start
      → d.node i g ≡ some path
      → contains related path ≡ true
  Told-contains g start i k related path [] told rooted h apart e = absurd (ground (arith, h))
  Told-contains g start i k related path ((a, b) ∷ xs) told rooted h apart e =
      elim (Bool-cases (eqb a i)) [
        | inr f ↦
            Told-contains g start i k related path xs told.1 rooted.1 (ground (arith, h, f)) apart e
        | inl f ↦
            let at : a ≡ i = eqb→eq a i f in
            told.0 (positive b (λ z. apart (sym at ∙ rooted.0 z))) path
              (ap (λ (x : ℕ). d.node x g) at ∙ e)
      ]
    where
      positive : (n : ℕ) → n ≢ 0 → 0 < n
      positive zero h = absurd (h refl)
      positive (suc n) h = omega arith

  related_loop-contains :
      (fuel max : ℕ) (g : d.G) (start m : ℕ) (search : Search d) (finished : List (ℕ × ℕ))
      (related paths : List String)
      → Going g start max m search finished related
      → related_loop d fuel max g search related ≡ some paths
      → (k i : ℕ) (path : String) → Walk d g start k i
      → k ≤ max
      → i ≢ start
      → d.node i g ≡ some path
      → contains paths path ≡ true
  unfolding related_loop
  related_loop-contains fuel max g start m (visited, []) finished related paths inv done k i path
        walk le apart e =
      let same : related ≡ paths = ground (arith, done) in
      subst (λ ps. contains ps path ≡ true) same
        (Told-contains g start i k related path finished inv.told inv.rooted
          (Walk-reaches g start max m k i visited finished related inv walk le) apart e)
  related_loop-contains zero max g start m (visited, next ∷ rest) finished related paths inv done k
        i path walk le apart e =
      absurd (ground (arith, done))
  related_loop-contains (suc fuel) max g start m (visited, (a, h) ∷ rest) finished related paths inv
        done k i path walk le apart e =
      related_loop-contains fuel max g start h (expand d max a h g (visited, rest))
        ((a, h) ∷ finished) (told_next g a h related) paths
        (turn-Going g start max m a h visited rest finished related inv) done k i path walk le apart
        e

  start-Going : (g : d.G) (start max : ℕ) → Going g start max 0 (start ∷ [], (start, 0) ∷ []) [] []
  start-Going g start max = record {
    same = λ j. ground arith;
    old = tt;
    small = (omega arith, tt);
    sorted = (omega arith, tt);
    closed = tt;
    rooted = tt;
    rooted_queue = ((λ z. refl), tt);
    told = tt;
    begun = ground arith;
  }

  -- The list that the search for the notes related to a path answers with has every note that a walk
  -- of at most `max_hops` edges, each taken in either direction, joins to the start, but the start.
  pub related_notes-contains :
      (path : String) (start max_hops : ℕ) (lg : LinkGraph C d) (paths : List String) (k i : ℕ)
      (other : String)
      → lg.path_index path ≡ some start
      → related_notes d path max_hops lg ≡ some paths
      → Walk d lg.graph start k i
      → k ≤ max_hops
      → i ≢ start
      → d.node i lg.graph ≡ some other
      → contains paths other ≡ true
  unfolding related_notes
  related_notes-contains path start max_hops lg paths k i other e answer walk le apart node =
      let opened : related_loop d (d.node_count lg.graph) max_hops lg.graph
            (start ∷ [], (start, 0) ∷ []) []
          ≡ some paths =
        sym (rw (e, related_notes) refl) ∙ answer in
      related_loop-contains (d.node_count lg.graph) max_hops lg.graph start 0 _ [] [] paths
        (start-Going lg.graph start max_hops) opened k i other walk le apart node
