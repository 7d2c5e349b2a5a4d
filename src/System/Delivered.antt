-- ===== src/System/Delivered.antt =====
-- What is held by the ring and the WAL after a delivery.
use mqtt2db_go.Prelude.{
  Option, none, some, ◌≡◌, ◌⊎◌, refl, sym, ap, ap₂, subst, ◌∙◌, inl, inr, Bool, true, false, List,
  [], ◌∷◌, ◌++◌, append_assoc, Bytes, In, In-append_left, In-append_right, In-append_cases,
}
use mqtt2db_go.Prelude.Results.{Result, ok, err}
use mqtt2db_go.Message.{Message, Time}
use mqtt2db_go.Buffer.{mark_spilled}
use mqtt2db_go.Buffer.Valid.{IsValid, contents}
use mqtt2db_go.Buffer.Enqueue.{enqueue_refines, IsValid-metrics}
use mqtt2db_go.Topic.{ParsedTopic, TopicParseError, parse_topic}
use mqtt2db_go.Subscriber.{handle_message, on_publish, message_of}
use mqtt2db_go.Subscriber.Contract.{StorableIn}
use mqtt2db_go.Subscriber.OverRing.{over_ring, ring_contract}
use mqtt2db_go.Subscriber.Acks.{Fate, Handled, handle_message-Handled, Same}
use mqtt2db_go.Subscriber.Keeps.{on_publish-keeps, on_publish-stores}
use mqtt2db_go.System.{
  Wired, System, SystemSubscriber, publish, Accepts, InOrder, SoundIn, FitsIn, receipt,
}
use mqtt2db_go.System.Held.{held, held_wal}

In-middle :
    (m msg : Message) (xs ys : List Message) → In m (xs ++ ys) → In m ((xs ++ msg ∷ []) ++ ys)
In-middle m msg xs ys h = elim (In-append_cases m xs ys h) [
  | inl left ↦ In-append_left m (xs ++ msg ∷ []) ys (In-append_left m xs (msg ∷ []) left)
  | inr right ↦ In-append_right m (xs ++ msg ∷ []) ys right
]

abbrev parsed_or : ParsedTopic → Result TopicParseError ParsedTopic → ParsedTopic
parsed_or d (ok p) = p
parsed_or d (err e) = d

module _ (t : Wired) where
  open t use {stores}

  pub on_publish-InOrder :
      (s : SystemSubscriber t) (topic payload : Bytes) (now : Time)
      → Accepts t s topic payload now (parse_topic stores.parse_uuid topic)
      → InOrder t s
      → InOrder t (on_publish (over_ring stores) s topic payload now)
  on_publish-InOrder s topic payload now accepts v =
      on_publish-keeps (over_ring stores) (λ r w. IsValid r × SoundIn t w)
        (λ r w q. (unfold mark_spilled in IsValid-metrics _ q.0, q.1)) s topic payload now v
        (λ p parses.
          let msg = message_of (over_ring stores) topic payload p now in
          let (counts, fits) = subst (Accepts t s topic payload now) parses accepts in
          let queued = (enqueue_refines msg v.0 counts).0 in
          (
            (queued, v.1),
            (λ w some_wal. (
              queued,
              stores.append-Sound w msg (subst (SoundIn t) some_wal v.1)
                  (subst (λ x. FitsIn t x msg) some_wal fits),
            )),
          ))

  StorableIn-fits :
      (w : Option stores.W) (msg : Message)
      → SoundIn t w
      → FitsIn t w msg
      → StorableIn (ring_contract stores) w msg
  StorableIn-fits none msg sound fits = tt
  StorableIn-fits (some w) msg sound fits = (sound, fits)

  held_moved :
      (s' : SystemSubscriber t) (m : Message) (in_ring in_wal : List Message)
      → contents s'.ring ≡ in_ring
      → held_wal t s'.wal ≡ in_wal
      → In m (in_ring ++ in_wal)
      → In m (held t s')
  held_moved s' m in_ring in_wal r w h = subst (In m) (sym (ap₂ (λ a b. a ++ b) r w)) h

  -- Fate, of a state that holds what the handler's does.
  delivered-Fate :
      (s s' : SystemSubscriber t) (out : SystemSubscriber t × Bool) (msg m : Message)
      → s'.ring ≡ out.0.ring
      → s'.wal ≡ out.0.wal
      → Fate (ring_contract stores) s out msg
      → (In m (held t s) → In m (held t s')) × (out.1 ≡ true → In msg (held t s'))
  unfolding Fate Same
  delivered-Fate s s' out msg m ring wal (inl (acked, in_ring, in_wal)) =
      let there = λ (x : Message) (h : In x ((contents s.ring ++ msg ∷ []) ++ held_wal t s.wal)).
        held_moved s' x _ _ (ap contents ring ∙ in_ring) (ap (held_wal t) wal ∙ in_wal) h in
      (
        (λ h. there m (In-middle m msg (contents s.ring) (held_wal t s.wal) h)),
        (λ e. there msg (
            In-append_left msg _ (held_wal t s.wal)
              (In-append_right msg (contents s.ring) _ (inl refl)))),
      )
  delivered-Fate s s' out msg m ring wal (inr (inl (acked, in_ring, in_wal))) =
      let there = λ (x : Message) (h : In x (contents s.ring ++ (held_wal t s.wal ++ msg ∷ []))).
        held_moved s' x _ _ (ap contents ring ∙ in_ring) (ap (held_wal t) wal ∙ in_wal) h in
      (
        (λ h. there m (
            subst (In m) (append_assoc (contents s.ring) (held_wal t s.wal) (msg ∷ []))
              (In-append_left m (held t s) (msg ∷ []) h))),
        (λ e. there msg (
            In-append_right msg (contents s.ring) _
              (In-append_right msg (held_wal t s.wal) _ (inl refl)))),
      )
  delivered-Fate s s' out msg m ring wal (inr (inr (refused, (in_ring, in_wal)))) = (
    (λ h. held_moved s' m _ _ (ap contents ring ∙ in_ring) (ap (held_wal t) wal ∙ in_wal) h),
    (λ e. let no_way = sym refused ∙ e in cc),
  )

  receipt-cases :
      (topic payload : Bytes) (now : Time) (parsed : Result TopicParseError ParsedTopic)
      (acked : Bool) (ms : List Message) (m : Message)
      → In m (receipt t topic payload now parsed acked ms)
      → In m ms
        ⊎ ((p : ParsedTopic) × (parsed ≡ ok p)
            × (acked ≡ true)
            × (m ≡ message_of (over_ring stores) topic payload p now))
  receipt-cases topic payload now (err e) true ms m h = inl h
  receipt-cases topic payload now (err e) false ms m h = inl h
  receipt-cases topic payload now (ok p) false ms m h = inl h
  receipt-cases topic payload now (ok p) true ms m (inl same) = inr (p, refl, refl, same)
  receipt-cases topic payload now (ok p) true ms m (inr h) = inl h

  -- A delivery takes nothing away, and what it newly acks is held.
  pub published_held :
      (s : System t) (topic payload : Bytes) (now : Time) (m : Message)
      → InOrder t s.sub
      → Accepts t s.sub topic payload now (parse_topic stores.parse_uuid topic)
      → let s' = publish t topic payload now s in
        (In m (held t s.sub) → In m (held t s'.sub))
        × (In m s'.acked → In m s.acked ⊎ In m (held t s'.sub))
  unfolding Handled Same
  published_held s topic payload now m v accepts =
      let d = over_ring stores in
      let out = handle_message d s.sub topic payload now in
      let s' = on_publish d s.sub topic payload now in
      let (ring, wal) = on_publish-stores s.sub topic payload now in
      elim (handle_message-Handled (ring_contract stores) s.sub topic payload now (λ p parses.
        let msg = message_of d topic payload p now in
        let (counts, fits) = subst (Accepts t s.sub topic payload now) parses accepts in
        ((v.0, counts), StorableIn-fits s.sub.wal msg v.1 fits))) [
          | inl (e, fails, acked, (in_ring, in_wal)) ↦ (
            (λ h.
                held_moved s' m _ _ (ap contents ring ∙ in_ring) (ap (held_wal t) wal ∙ in_wal) h),
            (λ h.
                elim (receipt-cases topic payload now (parse_topic stores.parse_uuid topic) out.1
                  s.acked m h) [
                    | inl before ↦ inl before
                    | inr (p, parses, yes_acked, same) ↦
                        let no_way = sym fails ∙ parses in absurd (cc)
                  ]),
          )
          | inr (p, parses, fate) ↦
              let (kept, added) =
                delivered-Fate s.sub s' out (message_of d topic payload p now) m ring wal fate in
              (
                kept,
                (λ h.
                    elim (receipt-cases topic payload now (parse_topic stores.parse_uuid topic)
                      out.1 s.acked m h) [
                        | inl before ↦ inl before
                        | inr (p', parses', acked, same) ↦
                            let one : p ≡ p' = ap (parsed_or p) (sym parses ∙ parses') in
                            let msg_is = ap (λ q. message_of d topic payload q now) one in
                            inr (subst (λ x. In x (held t s')) (msg_is ∙ sym same) (added acked))
                      ]),
              )
        ]
