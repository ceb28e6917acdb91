-- ===== src/Queue/Taken.antt =====
-- What the worker of internal/application/queue.go takes from the queue.
use mathlib.Core.Option.{some-injective}
use bagualu.Base.{◌≡◌, sym, ap, ◌∙◌, ◌≢◌, true, false, none, some, List, [], ◌∷◌}
use bagualu.Queue.{TestRequest, TestQueue, take_next, take_head}

abbrev pub taken : TestRequest → List TestRequest → TestQueue → TestQueue
taken request rest q = record q {
  queue = rest;
  running = true;
  running_id = request.id;
  running_node_id = request.node_id;
  running_kind = request.kind;
  running_cancel = some false;
}

take_head-taken :
    (l : List TestRequest) (q q' : TestQueue) (request : TestRequest)
    → take_head l q ≡ some (request, q')
    → (l ≡ request ∷ q'.queue) × (q' ≡ taken request q'.queue q)
unfolding take_head
take_head-taken [] q q' request e = absurd (cc e)
take_head-taken (first ∷ rest) q q' request e =
    let same = some-injective _ _ e in
    (
      ap (λ x. x.0 ∷ x.1.queue) same,
      sym (ap (λ x. x.1) same) ∙ ap (λ x. taken x.0 x.1.queue q) same,
    )

pub take_next-taken :
    (q q' : TestQueue) (request : TestRequest)
    → take_next q ≡ some (request, q')
    → (q.queue ≡ request ∷ q'.queue) × (q' ≡ taken request q'.queue q)
unfolding take_next
take_next-taken q q' request e = take_head-taken q.queue q q' request e

pub take_head-some :
    (l : List TestRequest) (q : TestQueue) (x : TestRequest) (xs : List TestRequest)
    → l ≡ x ∷ xs
    → take_head l q ≢ none
unfolding take_head
take_head-some [] q x xs e = absurd (cc e)
take_head-some (y ∷ l) q x xs e = λ h. cc h
