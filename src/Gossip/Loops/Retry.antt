-- ===== src/Gossip/Loops/Retry.antt =====
-- How a ping ends, by what its attempts bring.
use percas.Base.{
  ℕ, zero, suc, ◌≤◌, ◌<◌, ◌≡◌, ◌≢◌, ◌⊎◌, inl, inr, Option, none, some, Option-cases, returned, refl,
  ap, ◌∙◌, arith, ℕ_discrete,
}
use percas.Node.{NodeInfo, NodeJson}
use percas.Gossip.{
  GossipMessage, ping as ping_message, ack, sync as sync_message, World, handle_message, ◌>>◌, pure,
}
use percas.Gossip.Tasks.{mark_dead, ping_request, ping_end}
use percas.Gossip.Loops.{Join, Backon, Attempts, send, ping}

-- The first of the attempts 0 to `times` that succeeds, or that all fail.
first_of :
    {A : Type 0} (times : ℕ) (attempt : ℕ → Option A)
    → ((i : ℕ) → i ≤ times → attempt i ≡ none)
      ⊎ ((i : ℕ) × (a : A) × (i ≤ times)
          × (attempt i ≡ some a)
          × ((j : ℕ) → j < i → attempt j ≡ none))
first_of zero attempt = elim (Option-cases (attempt 0)) [
  | inl e ↦ inl (λ i l. ap attempt (omega arith) ∙ e)
  | inr (a, e) ↦ inr (0, a, omega arith, e, λ j l. absurd (omega arith))
]
first_of (suc times) attempt = elim (first_of times attempt) [
  | inr (i, a, l, e, before) ↦ inr (i, a, omega arith, e, before)
  | inl none_yet ↦ elim (Option-cases (attempt (suc times))) [
    | inr (a, e) ↦ inr (suc times, a, omega arith, e, λ j l. none_yet j (omega arith))
    | inl e ↦ inl (λ i l. elim (ℕ_discrete i (suc times)) [
      | yes same ↦ ap attempt same ∙ e
      | no other ↦ none_yet i (omega arith)
    ])
  ]
]

module _ ⦃json : NodeJson⦄ where
  -- A ping that is answered with an ack handles it; any other end marks the peer dead.
  ping_end-cases :
      (now : ℕ) (peer : NodeInfo) (m : GossipMessage) (w : World)
      → ((info : NodeInfo) × (m ≡ ack info)
          × (ping_end now peer (some m) w ≡ (handle_message now (ack info) >> pure tt) w))
        ⊎ (((info : NodeInfo) → m ≢ ack info)
            × (ping_end now peer (some m) w
                ≡ (record w { state = mark_dead w.state peer }, returned tt)))
  unfolding ping_end
  ping_end-cases now peer (ack info) w = inl (info, refl, refl)
  ping_end-cases now peer (ping_message info) w = inr ((λ i e. cc), refl)
  ping_end-cases now peer (sync_message ms) w = inr ((λ i e. cc), refl)

  ping_end-none :
      (now : ℕ) (peer : NodeInfo) (w : World)
      → ping_end now peer none w ≡ (record w { state = mark_dead w.state peer }, returned tt)
  unfolding ping_end
  ping_end-none now peer w = refl

module _ ⦃json : NodeJson⦄ ⦃j : Join⦄ ⦃b : Backon⦄ where
  -- The attempts of a ping are numbered from 0 to 3. Either all fail, and the peer is marked dead; or
  -- there is a first that brings a message: if it is an ack, it is handled, and if not, the peer is marked
  -- dead.
  pub ping-cases :
      (network : Attempts) (now : ℕ) (peer : NodeInfo) (w : World)
      → (((i : ℕ) → i ≤ 3 → send (network i) peer.advertise_ctrl_url (ping_request w.state) ≡ none)
          × (ping network now peer w ≡ (record w { state = mark_dead w.state peer }, returned tt)))
        ⊎ ((i : ℕ) × (m : GossipMessage) × (i ≤ 3)
            × (send (network i) peer.advertise_ctrl_url (ping_request w.state) ≡ some m)
            × ((k : ℕ)
                → k < i
                → send (network k) peer.advertise_ctrl_url (ping_request w.state) ≡ none)
            × (((info : NodeInfo) × (m ≡ ack info)
                  × (ping network now peer w ≡ (handle_message now (ack info) >> pure tt) w))
                ⊎ (((info : NodeInfo) → m ≢ ack info)
                    × (ping network now peer w
                        ≡ (record w { state = mark_dead w.state peer }, returned tt)))))
  unfolding ping
  ping-cases network now peer w =
      let attempt = λ (i : ℕ). send (network i) peer.advertise_ctrl_url (ping_request w.state) in
      elim (first_of 3 attempt) [
        | inl fail ↦ inl (
          fail,
          ap (λ r. ping_end now peer r w) (b.all_fail 3 attempt fail) ∙ ping_end-none now peer w,
        )
        | inr (i, m, l, e, before) ↦
            let run = ap (λ r. ping_end now peer r w) (b.first_success 3 i attempt m l e before) in
            inr (
              i,
              m,
              l,
              e,
              before,
              elim (ping_end-cases now peer m w) [
                | inl (info, same, f) ↦ inl (info, same, run ∙ f)
                | inr (other, f) ↦ inr (other, run ∙ f)
              ],
            )
      ]
