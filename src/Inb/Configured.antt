-- ===== src/Inb/Configured.antt =====
-- What a configuration of a whole target (`config_target_inb` of src/dem/config.c) leaves at its
-- endpoint.
use nvme_dem.Prelude.{
  ℕ, zero, suc, ◌+◌, Bool, true, false, ◌&&◌, not, List, [], ◌∷◌, ◌++◌, length, length-append, ◌≡◌,
  ◌⊎◌, inl, inr, refl, sym, subst, ap, ◌∙◌, arith, All, ◌==◌, Bool-cases,
}
use nvme_dem.Memory.{Mem}
use nvme_dem.Dem.State.{Target}
use nvme_dem.Endpoint.Ops.{Call, Ops}
use nvme_dem.Endpoint.Config.{status_of_call}
use nvme_dem.Inb.Message.{Message}
use nvme_dem.Inb.Delivery.{meaning, IsSendable}
use nvme_dem.Inb.Send.{
  answered, handled_lem, Peer, send_mi_send, send_set_config, send_set_config_lem,
}
use nvme_dem.Inb.Senders.{Round, Link, Result, next, send}
use nvme_dem.Inb.Config.{and_then, config_target_inb}
use nvme_dem.Inb.Plan.{config_messages, config_all-Related}

status_ok : (c : Call) → status_of_call c true == 0 ≡ true
status_ok c = ground arith

zero_left : (n : ℕ) → 0 + n ≡ n
zero_left n = omega arith

one_left : (n : ℕ) → 1 + n ≡ suc n
one_left n = omega arith

zero_right : (n : ℕ) → n ≡ n + 0
zero_right n = omega arith

module _ {S : Type 0} (ops : Ops S) where
  abbrev pub call : Message → S → S
  call msg s = (ops.perform (meaning msg) s).1

  abbrev pub calls : List Message → S → S
  calls [] s = s
  calls (m ∷ ms) s = calls ms (call m s)

  -- From `s` to `t` by the calls of the messages in their order, each made once or twice.
  abbrev pub Made : List Message → S → S → Type 0
  Made [] s t = s ≡ t
  Made (m ∷ ms) s t = Made ms (call m s) t ⊎ Made ms (call m (call m s)) t

  Made-append : (ms ns : List Message) (s t u : S) → Made ms s t → Made ns t u → Made (ms ++ ns) s u
  Made-append [] ns s t u p q = subst (λ x. Made ns x u) (sym p) q
  Made-append (m ∷ ms) ns s t u (inl p) q = inl (Made-append ms ns (call m s) t u p q)
  Made-append (m ∷ ms) ns s t u (inr p) q = inr (Made-append ms ns (call m (call m s)) t u p q)

  calls-append : (ms ns : List Message) (s : S) → calls (ms ++ ns) s ≡ calls ns (calls ms s)
  calls-append [] ns s = refl
  calls-append (m ∷ ms) ns s = calls-append ms ns (call m s)

  -- A step fails, or makes the calls of its messages.
  abbrev Safe : List Message → Link S → Result S → Type 0
  Safe ms l r = (r.ok ≡ false) ⊎ Made ms l.peer.target r.link.peer.target

  join-Safe :
      (ms ns : List Message) (l : Link S) (r : Result S) (g : Link S → Result S)
      → Safe ms l r
      → ((k : Link S) → Safe ns k (g k))
      → Safe (ms ++ ns) l (and_then r g)
  join-Safe ms ns l r g d e = elim (Bool-cases r.ok) [
    | inl o ↦ elim d [
      | inl z ↦ absurd (ground (arith, o, z))
      | inr p ↦ elim (e r.link) [
        | inl q ↦ inl (rw o q)
        | inr q ↦ inr (
            rw o
              (Made-append ms ns l.peer.target r.link.peer.target (g r.link).link.peer.target p q))
      ]
    ]
    | inr o ↦ inl (rw o refl)
  ]

  -- The next `n` messages are answered.
  abbrev pub Answers : ℕ → List Round → Type 0
  Answers zero rs = Unit
  Answers (suc n) [] = ⊥
  Answers (suc n) (r ∷ rs) = (r.first ≡ answered) × Answers n rs

  -- A step on a link that holds succeeds, keeps it and makes the calls of its messages once.
  abbrev Live : List Message → Link S → Result S → Type 0
  Live ms l r =
      (n : ℕ)
      → l.connected ≡ true
      → Answers (length ms + n) l.script
      → (r.ok ≡ true)
        × (r.link.connected ≡ true)
        × Answers n r.link.script
        × (r.link.peer.target ≡ calls ms l.peer.target)

  abbrev LiveAt : ℕ → Message → Peer S → Result S → Type 0
  LiveAt n m p r =
      (r.ok ≡ true)
      × (r.link.connected ≡ true)
      × Answers n r.link.script
      × (r.link.peer.target ≡ call m p.target)

  join-Live :
      (ms ns : List Message) (l : Link S) (r : Result S) (g : Link S → Result S)
      → Live ms l r
      → ((k : Link S) → Live ns k (g k))
      → Live (ms ++ ns) l (and_then r g)
  join-Live ms ns l r g d e n c a =
      let w : length (ms ++ ns) + n ≡ length ms + (length ns + n) =
        omega (arith, length-append ms ns) in
      let p = d (length ns + n) c (subst (λ k. Answers k l.script) w a) in
      let q = e r.link n p.1 p.2 in
      rw p.0 (q.0, q.1, q.2, q.3 ∙ ap (calls ns) p.3 ∙ sym (calls-append ms ns l.peer.target))

  module _ (heap : Mem) where
    send-Safe : (m : Message) (l : Link S) → IsSendable m → Safe (m ∷ []) l (send ops heap m l)
    unfolding send
    send-Safe m l h =
        let r = next l.script in
        elim (send_set_config_lem ops m heap h l.connected r.connects r.first r.second l.peer).0 [
          | inl e ↦ inl e
          | inr q ↦ inr (elim q.1 [ inl a ↦ inl (sym a.0) | inr b ↦ inr (sym b.0) ])
        ]

    -- Where `config_target_inb` returns 0, the endpoint's target has had the calls that the target's
    -- ports, subsystems, hosts, namespaces and links stand for, in the order in which they depend on
    -- each other, each of them once or twice, and no other, whatever was lost on the way, if the names
    -- and numbers of all of them fit their fields.
    pub config_target_inb_lem :
        (reaches : Bool) (t : Target) (l : Link S)
        → All IsSendable (config_messages t)
        → ((config_target_inb ops heap reaches t l).ok ≡ false)
          ⊎ Made
              (config_messages t)
              l.peer.target
              (config_target_inb ops heap reaches t l).link.peer.target
    unfolding config_target_inb
    config_target_inb_lem reaches t l h = elim (Bool-cases (not l.connected && not reaches)) [
      | inl e ↦ inl (rw e refl)
      | inr e ↦ rw e (config_all-Related ops heap Safe (λ l. inr refl) send-Safe join-Safe t l h)
    ]

    module _ (accepts : (c : Call) (s : S) → (ops.perform c s).0 ≡ true) where
      send_answered :
          (m : Message) (connected : Bool) (p : Peer S) (n : ℕ) (rs : List Round)
          → IsSendable m
          → connected ≡ true
          → Answers (suc n) rs
          → LiveAt n m p (send ops heap m (record { connected = connected; peer = p; script = rs }))
      unfolding send send_set_config send_mi_send
      send_answered m connected p n [] h c a = absurd a
      send_answered m connected p n (r ∷ rs) h c a =
          let d = handled_lem ops m heap h p in
          let o =
            d.0
            ∙ ap (λ k. status_of_call (meaning m) k == 0) (accepts (meaning m) p.target)
            ∙ status_ok (meaning m) in
          rw (c, a.0, o) (refl, refl, a.1, d.1)

      send-Live : (m : Message) (l : Link S) → IsSendable m → Live (m ∷ []) l (send ops heap m l)
      send-Live m l h n c a =
          send_answered m l.connected l.peer n l.script h c
            (subst (λ k. Answers k l.script) (one_left n) a)

      -- On a connected link where every command is answered, and with an endpoint whose target accepts
      -- every call, `config_target_inb` returns 0 and has made the calls of the target's ports,
      -- subsystems, hosts, namespaces and links in their order, each exactly once.
      pub config_target_inb_succeeds :
          (reaches : Bool) (t : Target) (l : Link S)
          → All IsSendable (config_messages t)
          → l.connected ≡ true
          → Answers (length (config_messages t)) l.script
          → ((config_target_inb ops heap reaches t l).ok ≡ true)
            × ((config_target_inb ops heap reaches t l).link.peer.target
                ≡ calls (config_messages t) l.peer.target)
      unfolding config_target_inb
      config_target_inb_succeeds reaches t l h c a =
          let p =
            config_all-Related ops heap Live
              (λ l n c a. (refl, c, subst (λ k. Answers k l.script) (zero_left n) a, refl))
              send-Live join-Live t l h 0 c
              (subst (λ k. Answers k l.script) (zero_right (length (config_messages t))) a) in
          let g : (not l.connected && not reaches) ≡ false = ground (arith, c) in rw g (p.0, p.3)
