-- ===== src/Operator/End/Delivery.antt =====
-- Each receiver gets, in order, the elements that `End` hands to it.
use mathlib.Core.List.{flatten}
use mathlib.Core.Path.{subst}
use renoir.Prelude.{
  ==_iff, ℕ, zero, suc, ◌<◌, ◌≡◌, refl, sym, ap, ◌∙◌, Bool, true, false, ◌&&◌, Option, none, some,
  List, [], ◌∷◌, ◌++◌, map, append-nil, append_assoc, length, arith, All, ◌==◌, if◌then◌else◌,
  Bool-cases, inl, inr,
}
use renoir.Stream.{
  StreamElement, item, timestamped, watermark, flush_batch, terminate, flush_and_restart,
}
use renoir.Block.Batcher.{enqueue}
use renoir.Block.Batcher.Order.{passed, IsReady, enqueue-passed, enqueue-IsReady}
use renoir.Operator.End.{
  BlockId, Sender, get_elem?, enqueue_at, is_feedback, is_terminate, send_to, send_all, then_send,
  cons_some,
}

module _ {ℓ} {Out : Type ℓ} where
  abbrev pub AreReady : List (Sender Out) → Type ℓ
  AreReady = All (λ s. IsReady s.batcher)

  -- What the sender was given, and what it was given and has sent.
  abbrev pub passed_of : Option (Sender Out) → List (StreamElement Out)
  passed_of none = []
  passed_of (some s) = passed s.batcher

  abbrev pub sent_of : Option (Sender Out) → List (StreamElement Out)
  sent_of none = []
  sent_of (some s) = flatten s.batcher.sent

  abbrev pub blocks : List (Sender Out) → List BlockId
  blocks = map (λ s. s.block_id)

  -- A `Terminate` for the destination of the feedback loop.
  abbrev pub is_withheld : Option BlockId → StreamElement Out → Option BlockId → Bool
  is_withheld feedback e none = false
  is_withheld none e (some b) = false
  is_withheld (some f) e (some b) = is_terminate e && b == f

  -- The copies of an element for the sender `j`, when it goes to the senders `is`.
  abbrev pub copies : Bool → StreamElement Out → ℕ → List ℕ → List (StreamElement Out)
  copies withheld e j [] = []
  copies withheld e j (i ∷ is) =
      (if i == j then (if withheld then [] else e ∷ []) else []) ++ copies withheld e j is

  pub record Sends (senders : List (Sender Out)) (r : Option (List (Sender Out)))
      (e : ℕ → List (StreamElement Out)) : Type ℓ where
    pub senders' : List (Sender Out)
    pub returned : r ≡ some senders'
    pub ready : AreReady senders'
    pub same_blocks : blocks senders' ≡ blocks senders
    pub adds : (j : ℕ) → passed_of (get_elem? senders' j) ≡ passed_of (get_elem? senders j) ++ e j

  first_adds :
      (elapsed : ℕ → Bool) (e : StreamElement Out) (i : ℕ) (s : Sender Out)
      (senders : List (Sender Out))
      → IsReady s.batcher
      → (j : ℕ)
      → passed_of (get_elem? (record s { batcher = enqueue (elapsed i) e s.batcher } ∷ senders) j)
        ≡ passed_of (get_elem? (s ∷ senders) j) ++ (if zero == j then e ∷ [] else [])
  unfolding enqueue
  first_adds elapsed e i s senders r zero =
      enqueue-passed s.batcher.mode (elapsed i) e s.batcher refl r
  first_adds elapsed e i s senders r (suc j) =
      let ne : (zero == suc j) ≡ false = ground arith in
      rw ne (sym (append-nil (passed_of (get_elem? senders j))))

  later_adds :
      (e : StreamElement Out) (k : ℕ) (s : Sender Out) (senders senders' : List (Sender Out))
      → ((j : ℕ)
          → passed_of (get_elem? senders' j)
            ≡ passed_of (get_elem? senders j) ++ (if k == j then e ∷ [] else []))
      → (j : ℕ)
      → passed_of (get_elem? (s ∷ senders') j)
        ≡ passed_of (get_elem? (s ∷ senders) j) ++ (if suc k == j then e ∷ [] else [])
  later_adds e k s senders senders' h zero =
      let ne : (suc k == zero) ≡ false = ground arith in rw ne (sym (append-nil (passed s.batcher)))
  later_adds e k s senders senders' h (suc j) =
      let same : (suc k == suc j) ≡ (k == j) = ground arith in rw same (h j)

  length-blocks : (senders : List (Sender Out)) → length (blocks senders) ≡ length senders
  length-blocks [] = refl
  length-blocks (s ∷ senders) = omega (arith, length-blocks senders)

  enqueue_at-Sends :
      (elapsed : ℕ → Bool) (e : StreamElement Out) (i k : ℕ) (senders : List (Sender Out))
      → k < length senders
      → AreReady senders
      → Sends senders (enqueue_at elapsed e i k senders) (λ j. if k == j then e ∷ [] else [])
  unfolding enqueue
  enqueue_at-Sends elapsed e i k [] h r = absurd (omega arith)
  enqueue_at-Sends elapsed e i zero (s ∷ senders) h r = record {
    senders' = record s { batcher = enqueue (elapsed i) e s.batcher } ∷ senders;
    returned = refl;
    ready = (enqueue-IsReady s.batcher.mode (elapsed i) e s.batcher refl r.0, r.1);
    same_blocks = refl;
    adds = first_adds elapsed e i s senders r.0;
  }
  enqueue_at-Sends elapsed e i (suc k) (s ∷ senders) h r =
      let rest = enqueue_at-Sends elapsed e (suc i) k senders (omega arith) r.1 in
      record {
        senders' = s ∷ rest.senders';
        returned = ap (cons_some (some s)) rest.returned;
        ready = (r.0, rest.ready);
        same_blocks = ap (λ z. s.block_id ∷ z) rest.same_blocks;
        adds = later_adds e k s senders rest.senders' rest.adds;
      }

  get_elem?-some :
      (senders : List (Sender Out)) (i : ℕ)
      → i < length senders
      → (s : Sender Out) × (get_elem? senders i ≡ some s)
        × (get_elem? (blocks senders) i ≡ some s.block_id)
  get_elem?-some [] i h = absurd (omega arith)
  get_elem?-some (s ∷ senders) zero h = (s, refl, refl)
  get_elem?-some (s ∷ senders) (suc i) h = get_elem?-some senders i (omega arith)

  -- Whether the `j`th of these blocks is not sent the element.
  abbrev pub withheld : Option BlockId → StreamElement Out → List BlockId → ℕ → Bool
  withheld feedback e bs j = is_withheld feedback e (get_elem? bs j)

  withheld-feedback :
      (feedback : Option BlockId) (e : StreamElement Out) (s : Sender Out)
      → is_withheld feedback e (some s.block_id) ≡ (is_terminate e && is_feedback feedback s)
  withheld-feedback none terminate s = refl
  withheld-feedback none (item x) s = refl
  withheld-feedback none (timestamped x ts) s = refl
  withheld-feedback none (watermark w) s = refl
  withheld-feedback none flush_batch s = refl
  withheld-feedback none flush_and_restart s = refl
  withheld-feedback (some b) e s = refl

  abbrev one_copy :
      Option BlockId → StreamElement Out → List BlockId → ℕ → ℕ → List (StreamElement Out)
  one_copy feedback e bs i j =
      if i == j then (if withheld feedback e bs j then [] else e ∷ []) else []

  held_adds :
      (feedback : Option BlockId) (e : StreamElement Out) (senders : List (Sender Out)) (i j : ℕ)
      → withheld feedback e (blocks senders) i ≡ true
      → passed_of (get_elem? senders j)
        ≡ passed_of (get_elem? senders j) ++ one_copy feedback e (blocks senders) i j
  held_adds feedback e senders i j h = elim (Bool-cases (i == j)) [
    | inl eq ↦
        rw (eq, subst (λ k. withheld feedback e (blocks senders) k ≡ true) ((==_iff i j).0 eq) h)
          (sym (append-nil _))
    | inr ne ↦ rw ne (sym (append-nil _))
  ]

  open_copy :
      (feedback : Option BlockId) (e : StreamElement Out) (senders : List (Sender Out)) (i j : ℕ)
      → withheld feedback e (blocks senders) i ≡ false
      → (if i == j then e ∷ [] else []) ≡ one_copy feedback e (blocks senders) i j
  open_copy feedback e senders i j h = elim (Bool-cases (i == j)) [
    | inl eq ↦
        rw (eq, subst (λ k. withheld feedback e (blocks senders) k ≡ false) ((==_iff i j).0 eq) h)
          refl
    | inr ne ↦ rw ne refl
  ]

  send_to-Sends :
      (feedback : Option BlockId) (elapsed : ℕ → Bool) (e : StreamElement Out)
      (senders : List (Sender Out)) (i : ℕ)
      → i < length senders
      → AreReady senders
      → Sends senders
          (send_to feedback elapsed e senders i (get_elem? senders i))
          (one_copy feedback e (blocks senders) i)
  send_to-Sends feedback elapsed e senders i h r =
      let (s, p, q) = get_elem?-some senders i h in
      elim (Bool-cases (is_terminate e && is_feedback feedback s)) [
        | inl held ↦ record {
          senders' = senders;
          returned = rw (p, held) refl;
          ready = r;
          same_blocks = refl;
          adds = λ j.
              held_adds feedback e senders i j
                (ap (is_withheld feedback e) q ∙ withheld-feedback feedback e s ∙ held);
        }
        | inr free ↦
            let sent = enqueue_at-Sends elapsed e 0 i senders h r in
            record {
              senders' = sent.senders';
              returned = rw (p, free) sent.returned;
              ready = sent.ready;
              same_blocks = sent.same_blocks;
              adds = λ j.
                  sent.adds j
                  ∙ ap (λ z. passed_of (get_elem? senders j) ++ z)
                      (open_copy feedback e senders i j
                        (ap (is_withheld feedback e) q ∙ withheld-feedback feedback e s ∙ free));
            }
      ]

  -- The copies of an element for the sender `j`.
  abbrev pub copies_at :
      Option BlockId → StreamElement Out → List BlockId → List ℕ → ℕ → List (StreamElement Out)
  copies_at feedback e bs is j = copies (withheld feedback e bs j) e j is

  pub send_all-Sends :
      (feedback : Option BlockId) (elapsed : ℕ → Bool) (e : StreamElement Out) (bs : List BlockId)
      (is : List ℕ) (senders : List (Sender Out))
      → blocks senders ≡ bs
      → All (λ i. i < length bs) is
      → AreReady senders
      → Sends senders (send_all feedback elapsed e is senders) (copies_at feedback e bs is)
  send_all-Sends feedback elapsed e bs [] senders b h r = record {
    senders' = senders;
    returned = refl;
    ready = r;
    same_blocks = refl;
    adds = λ j. sym (append-nil _);
  }
  send_all-Sends feedback elapsed e bs (i ∷ is) senders b h r =
      let first =
        send_to-Sends feedback elapsed e senders i
          (omega (arith, length-blocks senders, ap length b, h.0)) r in
      let rest =
        send_all-Sends feedback elapsed e bs is first.senders' (first.same_blocks ∙ b) h.1
          first.ready in
      record {
        senders' = rest.senders';
        returned =
            ap (λ z. then_send z (send_all feedback elapsed e is)) first.returned ∙ rest.returned;
        ready = rest.ready;
        same_blocks = rest.same_blocks ∙ first.same_blocks;
        adds = λ j.
            rest.adds j
            ∙ ap (λ z. z ++ copies_at feedback e bs is j) (first.adds j)
            ∙ append_assoc (passed_of (get_elem? senders j))
                (one_copy feedback e (blocks senders) i j) (copies_at feedback e bs is j)
            ∙ ap
                (λ z.
                  passed_of (get_elem? senders j)
                  ++ (one_copy feedback e z i j ++ copies_at feedback e bs is j))
                b;
      }
