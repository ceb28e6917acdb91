-- ===== src/Refresh/Linked.antt =====
-- The nodes that an upstream lists, under the statements of Store.
use bagualu.Base.{
  String, ◌≡◌, refl, ap, ◌∙◌, inl, inr, Bool, true, false, not, ◌&&◌, ◌||◌, List, [], ◌∷◌, arith,
  ◌==◌, nat_eq, string_eq, str_eq_iff, if◌then◌else◌, Bool-cases,
}
use bagualu.Refresh.Import.{has, note}
use bagualu.Refresh.Store.{NodeSource, links, put_source, ids_by_upstream, without_source}

-- Whether node_sources links a node to an upstream.
pub linked : String → String → List NodeSource → Bool
linked i u [] = false
linked i u (source ∷ sources) = links i u source || linked i u sources

pub linked-put :
    (i u : String) (source : NodeSource) (l : List NodeSource)
    → linked i u (put_source source l) ≡ (links i u source || linked i u l)
unfolding linked put_source
linked-put i u source [] = refl
linked-put i u source (old ∷ l) = ground (
  arith,
  linked-put i u source l,
  str_eq_iff old.node_id source.node_id,
  str_eq_iff old.upstream_id source.upstream_id,
  str_eq_iff old.node_id i,
  str_eq_iff old.upstream_id u,
  str_eq_iff source.node_id i,
  str_eq_iff source.upstream_id u,
)

-- One entry of `without_source`: a, b, c and d stand for the tests of the entry's node against
-- i, of its upstream, of its node against j and of j against i.
without_entry :
    (a b c d r r' : Bool)
    → r' ≡ (r && not d)
    → (c ≡ true → a ≡ d)
    → (c ≡ false → d ≡ true → a ≡ false)
    → (if c && b then r' else (a && b) || r') ≡ (((a && b) || r) && not d)
without_entry a true true d r r' h same other = rw (h, same refl) (ground arith)
without_entry a true false true r r' h same other = rw (h, other refl refl) (ground arith)
without_entry a true false false r r' h same other = rw h (ground arith)
without_entry true false true d r r' h same other = h
without_entry false false true d r r' h same other = h
without_entry true false false d r r' h same other = h
without_entry false false false d r r' h same other = h

linked-if :
    (i u : String) (test : Bool) (source : NodeSource) (l : List NodeSource)
    → linked i u (if test then l else source ∷ l)
      ≡ (if test then linked i u l else links i u source || linked i u l)
unfolding linked
linked-if i u true source l = refl
linked-if i u false source l = refl

pub linked-without :
    (i j u : String) (l : List NodeSource)
    → linked i u (without_source j u l) ≡ (linked i u l && not (j == i))
unfolding linked without_source
linked-without i j u [] = refl
linked-without i j u (source ∷ l) =
    linked-if i u (links j u source) source (without_source j u l)
    ∙ without_entry (source.node_id == i) (source.upstream_id == u) (source.node_id == j) (j == i)
        (linked i u l) _ (linked-without i j u l)
        (λ h. ap (λ k. k == i) ((str_eq_iff source.node_id j).0 h))
        (λ h k. rw ((str_eq_iff j i).0 k) at h)

pub has-ids : (i u : String) (l : List NodeSource) → has i (ids_by_upstream u l) ≡ linked i u l
unfolding has ids_by_upstream linked
has-ids i u [] = refl
has-ids i u (source ∷ l) = ground (arith, has-ids i u l)

pub has-note : (i j : String) (l : List String) → has i (note j l) ≡ ((j == i) || has i l)
unfolding note has
has-note i j l = elim (Bool-cases (has j l)) [
  | inl e ↦ elim (Bool-cases (j == i)) [
    | inl f ↦ rw e (rw f (rw ((str_eq_iff j i).0 f) at e))
    | inr f ↦ rw (e, f) refl
  ]
  | inr e ↦ rw e refl
]

abbrev pub NoRepeat : List String → Type 0
NoRepeat [] = Unit
NoRepeat (i ∷ l) = (has i l ≡ false) × NoRepeat l

pub note-NoRepeat : (j : String) (l : List String) → NoRepeat l → NoRepeat (note j l)
unfolding note
note-NoRepeat j l h = elim (Bool-cases (has j l)) [ inl e ↦ rw e h | inr e ↦ rw e (e, h) ]
