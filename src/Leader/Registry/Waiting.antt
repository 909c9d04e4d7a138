-- ===== src/Leader/Registry/Waiting.antt =====
-- A client that waits for an answer, and the traffic that leaves it waiting.
-- `Waits k ch id i r`: the client `k` waits on `ch`, under its own number `i`, for the answer to the
-- envelope `id`.
use opfs_webauthn.Map
use opfs_webauthn.Leader.Bridge.{Bridge, Turn, new_bridge, on_client_message, on_writer_message}
use opfs_webauthn.Leader.Registry.Defs.{
  Registry, Traffic, client_says, each_answers, from_client, from_writer, pairs, pass, pass_all,
}
use opfs_webauthn.Leader.Registry.Ids.{RegistryInv, held, held-get, pass-RegistryInv}
use opfs_webauthn.Leader.Wire.{Channel}
use opfs_webauthn.Map.{Map, tally-get}
use opfs_webauthn.Prelude.{
  All, Bool-cases, List, Option-cases, Text, [], ap, arith, false, inl, inr, nat_eq, some, text_beq,
  text_beq_iff, text_eq, ℕ, ◌∙◌, ◌∷◌, ◌≡◌, ◌≢◌, ◌≤◌, ◌⊎◌,
}
use opfs_webauthn.Rpc.Protocol.{Message, envelope_id, is_close}

pub record Waits (k : Text) (ch : Channel) (id i : ℕ) (r : Registry) : Type 0 where
  pub bridge : Bridge
  pub known : Map.get k r.bridges ≡ some bridge
  pub over : bridge.channel ≡ ch
  pub under : Map.get id bridge.id_map ≡ some i

-- Traffic that leaves `k` waiting: no answer to `id`, no close and no new pairing of `k`.
abbrev pub Quiet : Text → ℕ → Traffic → Type 0
Quiet k id (from_client j m) = (j ≢ k) ⊎ (is_close m ≡ false)
Quiet k id (from_writer m) = envelope_id m ≢ some id
Quiet k id (pairs j ch) = j ≢ k

Waits-tally :
    (k : Text) (ch : Channel) (id i : ℕ) (r : Registry) → Waits k ch id i r → 1 ≤ held id r.bridges
Waits-tally k ch id i r w =
    ground (arith, held-get id k r.bridges w.bridge w.known, tally-get id w.bridge.id_map, w.under)

turn_keeps :
    (m : Message) (next : ℕ) (b : Bridge) (id i : ℕ)
    → is_close m ≡ false
    → id ≢ next
    → Map.get id b.id_map ≡ some i
    → let t = on_client_message m next b in
      (t.closed ≡ false) × (t.bridge.channel ≡ b.channel) × (Map.get id t.bridge.id_map ≡ some i)
unfolding on_client_message
turn_keeps m next b id i c n e = elim (Option-cases (envelope_id m)) [
  | inl f ↦ ground arith
  | inr (j, f) ↦ ground (arith, Map.get-set next id j b.id_map)
]

client_says-Waits :
    (k j : Text) (ch : Channel) (id i : ℕ) (m : Message) (r : Registry)
    → RegistryInv r
    → (j ≢ k) ⊎ (is_close m ≡ false)
    → Waits k ch id i r
    → Waits k ch id i (client_says j m r).0
unfolding client_says
client_says-Waits k j ch id i m r v q w = elim (Option-cases (Map.get j r.bridges)) [
  | inl e ↦ rw (e, client_says) w
  | inr (b, e) ↦
      let t : Turn = on_client_message m r.next_id b in
      let small : id ≢ r.next_id = λ p. ground (arith, v.below id, Waits-tally k ch id i r w) in
      let put = Map.get-set j k t.bridge r.bridges in
      let cut = Map.get-delete j k r.bridges in
      let same = text_beq_iff j k in
      rw (e, client_says)
        (elim (Bool-cases (text_beq j k)) [
          | inl s ↦
              let plain : is_close m ≡ false = ground (arith, same) in
              let old : b ≡ w.bridge =
                ground (arith, same, w.known, ap (λ x. Map.get x r.bridges) (same.0 s)) in
              let kept = turn_keeps m r.next_id b id i plain small (ground (arith, w.under)) in
              record {
                bridge = t.bridge;
                known = ground (arith, kept.0, put);
                over = ground (arith, kept.1, w.over);
                under = kept.2;
              }
          | inr s ↦ record {
            bridge = w.bridge;
            known = ground (arith, put, cut, w.known);
            over = w.over;
            under = w.under;
          }
        ])
]

each_answers-get :
    (m : Message) (k : Text) (bs : Map Text Bridge) (b : Bridge)
    → Map.get k bs ≡ some b
    → Map.get k (each_answers m bs).0 ≡ some (on_writer_message m b).0
unfolding each_answers Map.get
each_answers-get m k [] b e = cc
each_answers-get m k ((j, c) ∷ bs) b e = ground (arith, each_answers-get m k bs b)

answer_keeps :
    (m : Message) (b : Bridge) (id i : ℕ)
    → envelope_id m ≢ some id
    → Map.get id b.id_map ≡ some i
    → ((on_writer_message m b).0.channel ≡ b.channel)
      × (Map.get id (on_writer_message m b).0.id_map ≡ some i)
unfolding on_writer_message
answer_keeps m b id i n e = elim (Option-cases (envelope_id m)) [
  | inl f ↦ ground arith
  | inr (j, f) ↦ ground (arith, Map.get-delete j id b.id_map)
]

pass-Waits :
    (k : Text) (ch : Channel) (id i : ℕ) (t : Traffic) (r : Registry)
    → RegistryInv r
    → Quiet k id t
    → Waits k ch id i r
    → Waits k ch id i (pass t r).0
unfolding pass
pass-Waits k ch id i (from_client j m) r v q w = client_says-Waits k j ch id i m r v q w
pass-Waits k ch id i (from_writer m) r v q w =
    let kept = answer_keeps m w.bridge id i q w.under in
    record {
      bridge = (on_writer_message m w.bridge).0;
      known = each_answers-get m k r.bridges w.bridge w.known;
      over = kept.0 ∙ w.over;
      under = kept.1;
    }
pass-Waits k ch id i (pairs j c) r v q w = record {
  bridge = w.bridge;
  known = ground (arith, Map.get-set j k (new_bridge c) r.bridges, text_beq_iff j k, w.known);
  over = w.over;
  under = w.under;
}

pub pass_all-Waits :
    (k : Text) (ch : Channel) (id i : ℕ) (ts : List Traffic) (r : Registry)
    → RegistryInv r
    → All (Quiet k id) ts
    → Waits k ch id i r
    → Waits k ch id i (pass_all ts r).0 × RegistryInv (pass_all ts r).0
unfolding pass_all
pass_all-Waits k ch id i [] r v q w = (w, v)
pass_all-Waits k ch id i (t ∷ ts) r v q w =
    pass_all-Waits k ch id i ts (pass t r).0 (pass-RegistryInv t r v) q.1
      (pass-Waits k ch id i t r v q.0 w)
