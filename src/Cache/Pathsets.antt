-- ===== src/Cache/Pathsets.antt =====
-- crates/cache/src/pathset_store.rs: the derived equality of stored path sets.
use rage.Prelude.{&&-true, FilePath, List, [], ap, refl, true, ◌∙◌, ◌∷◌, ◌≡◌}
use rage.Cache.Strong.{path_eq, path_eq_iff}
use rage.Cache.{StoredPathset, paths_eq, pathset_eq}

paths_eq-true : (ps qs : List FilePath) → paths_eq ps qs ≡ true → ps ≡ qs
paths_eq-true [] [] h = refl
paths_eq-true (p ∷ ps) (q ∷ qs) h =
    let (a, b) = &&-true (path_eq p q) (paths_eq ps qs) h in
    ap (λ t. t ∷ ps) ((path_eq_iff p q).0 a) ∙ ap (λ t. q ∷ t) (paths_eq-true ps qs b)
paths_eq-true [] (y ∷ ys) h = absurd (cc)
paths_eq-true (x ∷ xs) [] h = absurd (cc)

pub pathset_eq-reads : (a b : StoredPathset) → pathset_eq a b ≡ true → a.reads ≡ b.reads
pathset_eq-reads a b h = paths_eq-true a.reads b.reads (&&-true _ _ h).0

-- The reads of some pathset of a list.
