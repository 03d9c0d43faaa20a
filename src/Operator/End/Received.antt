-- ===== src/Operator/End/Received.antt =====
-- What the receivers of a block have got when the stream ends.
use renoir.Prelude.{
  ℕ, ◌≡◌, refl, sym, ap, ◌∙◌, some, List, [], ◌∷◌, ◌++◌, map, append-nil, append_assoc, length, All,
}
use renoir.Stream.{
  StreamElement, item, timestamped, watermark, flush_batch, terminate, flush_and_restart,
}
use renoir.Operator.End.Calls.{
  AreGroups, targets-some, flush_all-ready, flush_all-blocks, flush_all-passed, end_all-sent,
  received, all_received, run, after_next, copies_for,
}
use renoir.Stream.Run.{IsGoing}
use renoir.Operator.End.Delivery.{AreReady, passed_of, sent_of, blocks, send_all-Sends}
use renoir.Operator.End.{
  BlockId, Sender, End, Surroundings, get_elem?, flush_sender, end_sender, flush_stage, sent_stage,
  end_next,
}

module _ {ℓ} {Out : Type ℓ} where
  -- The second `match` keeps what was passed on.
  abbrev Stages : StreamElement Out → End Out → List BlockId → List (Sender Out) → Type ℓ
  Stages e s bs now =
      (after : List (Sender Out)) × (flush_stage e (record s { senders = now })
        ≡ record s { senders = after })
      × AreReady after
      × (blocks after ≡ bs)
      × ((j : ℕ) → passed_of (get_elem? after j) ≡ passed_of (get_elem? now j))

  stage-Stages :
      (e : StreamElement Out) (s : End Out) (bs : List BlockId) (now : List (Sender Out))
      → IsGoing e
      → AreReady now
      → blocks now ≡ bs
      → Stages e s bs now
  stage-Stages (item x) s bs now g ready b = (now, refl, ready, b, λ j. refl)
  stage-Stages (timestamped x ts) s bs now g ready b = (now, refl, ready, b, λ j. refl)
  stage-Stages (watermark w) s bs now g ready b = (now, refl, ready, b, λ j. refl)
  stage-Stages flush_batch s bs now g ready b = (
    map flush_sender now,
    refl,
    flush_all-ready now ready,
    flush_all-blocks now ∙ b,
    flush_all-passed now,
  )
  stage-Stages flush_and_restart s bs now g ready b = (
    map flush_sender now,
    refl,
    flush_all-ready now ready,
    flush_all-blocks now ∙ b,
    flush_all-passed now,
  )
  stage-Stages terminate s bs now g ready b = absurd g

  -- The first `match`.
  abbrev Enqueues : Surroundings → StreamElement Out → End Out → List BlockId → Type ℓ
  Enqueues env e s bs =
      (now : List (Sender Out)) × (end_next env e s
        ≡ some (flush_stage e (record s { senders = now })))
      × AreReady now
      × (blocks now ≡ bs)
      × ((j : ℕ)
          → passed_of (get_elem? now j)
            ≡ passed_of (get_elem? s.senders j) ++ received s bs j (env, e))

  end_next-Enqueues :
      (env : Surroundings) (e : StreamElement Out) (s : End Out) (bs : List BlockId)
      → blocks s.senders ≡ bs
      → AreGroups (length bs) s.block_senders
      → AreReady s.senders
      → Enqueues env e s bs
  unfolding end_next
  end_next-Enqueues env e s bs b a r =
      let (is, p, below) =
        targets-some s.next_strategy (length bs) env.generated s.block_senders e a in
      let sent = send_all-Sends s.feedback_id env.elapsed e bs is s.senders b below r in
      (
        sent.senders',
        rw p (ap (sent_stage e s) sent.returned),
        sent.ready,
        sent.same_blocks ∙ b,
        λ j.
            sent.adds j
            ∙ ap (λ z. passed_of (get_elem? s.senders j) ++ copies_for s.feedback_id e bs j z)
                (sym p),
      )

  -- `Terminate` closes the senders.
  terminate-closes :
      (env : Surroundings) (s : End Out) (bs : List BlockId)
      → s.closed ≡ []
      → Enqueues env terminate s bs
      → (t : End Out) × (end_next env terminate s ≡ some t)
        × (t.senders ≡ [])
        × ((j : ℕ)
            → sent_of (get_elem? t.closed j)
              ≡ passed_of (get_elem? s.senders j) ++ received s bs j (env, terminate))
  terminate-closes env s bs c (now, p, r, b, h) = (
    record s { senders = []; closed = s.closed ++ map end_sender now },
    p,
    refl,
    λ j. rw c (end_all-sent now j ∙ h j),
  )

  -- For an `End` whose groups are not empty and hold only indexes of its senders, whose batchers
  -- are not full and that has closed nothing, the calls of `next` for a stream that ends with its
  -- only `Terminate` never panic and close all senders; the receiver `j` has then been sent, in
  -- order, what its batcher had been given before, and then the copies of each element for it: one
  -- for each time that `j` is among the targets of the element, but none of a `Terminate` if it is
  -- the destination of the feedback loop.
  pub run-received :
      (s : End Out) (bs : List BlockId) (calls : List (Surroundings × StreamElement Out))
      (last : Surroundings) (j : ℕ)
      → blocks s.senders ≡ bs
      → s.closed ≡ []
      → AreGroups (length bs) s.block_senders
      → AreReady s.senders
      → All (λ c. IsGoing c.1) calls
      → (t : End Out) × (run (calls ++ (last, terminate) ∷ []) s ≡ some t)
        × (t.senders ≡ [])
        × (sent_of (get_elem? t.closed j)
            ≡ passed_of (get_elem? s.senders j)
              ++ all_received s bs j (calls ++ (last, terminate) ∷ []))
  run-received s bs [] last j b c a r g =
      let (t, p, q, h) =
        terminate-closes last s bs c (end_next-Enqueues last terminate s bs b a r) in
      (
        t,
        ap (λ z. after_next z (run [])) p,
        q,
        h j ∙ ap (λ z. passed_of (get_elem? s.senders j) ++ z) (sym (append-nil _)),
      )
  run-received s bs ((env, e) ∷ calls) last j b c a r g =
      let (now, p, ready, b', h) = end_next-Enqueues env e s bs b a r in
      let (after, f, ready', b'', kept) = stage-Stages e s bs now g.0 ready b' in
      let (t, q, closed, w) =
        run-received (record s { senders = after }) bs calls last j b'' c a ready' g.1 in
      (
        t,
        ap (λ z. after_next z (run (calls ++ (last, terminate) ∷ []))) (p ∙ ap some f) ∙ q,
        closed,
        w
            ∙ ap (λ z. z ++ all_received s bs j (calls ++ (last, terminate) ∷ [])) (kept j ∙ h j)
            ∙ append_assoc (passed_of (get_elem? s.senders j)) (received s bs j (env, e))
                (all_received s bs j (calls ++ (last, terminate) ∷ [])),
      )
