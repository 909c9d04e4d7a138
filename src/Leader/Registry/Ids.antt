-- ===== src/Leader/Registry/Ids.antt =====
-- A leader's envelope ids are distinct over all its bridges, and below its counter.
use opfs_webauthn.Map
use opfs_webauthn.Leader.Bridge.{Bridge, Turn, new_bridge, on_client_message, on_writer_message}
use opfs_webauthn.Leader.Registry.Defs.{
  Registry, Traffic, add_bridge, client_says, each_answers, empty_registry, from_client,
  from_writer, pairs, pass, pass_all, writer_says,
}
use opfs_webauthn.Leader.Wire.{Channel}
use opfs_webauthn.Map.{Map, tally, tally-delete, tally-set}
use opfs_webauthn.Prelude.{
  Bool-cases, List, Option-cases, Text, [], arith, false, inl, inr, nat_eq, refl, some, text_eq, ℕ,
  ◌+◌, ◌∙◌, ◌∷◌, ◌≡◌, ◌≤◌, ◌⊎◌,
}
use opfs_webauthn.Rpc.Protocol.{Message, envelope_id}

-- How many bridges wait for the envelope `id`.
unfoldable pub held : ℕ → Map Text Bridge → ℕ
held id [] = 0
held id ((client, b) ∷ bs) = tally id b.id_map + held id bs

abbrev pub Live : Map Text Bridge → Type 0
Live [] = Unit {0}
Live ((client, b) ∷ bs) = (b.disposed ≡ false) × Live bs

-- No bridge in the registry is disposed, and an envelope id is held once at most and was given out.
pub record RegistryInv (r : Registry) : Type 0 where
  pub live : Live r.bridges
  pub unique : (id : ℕ) → held id r.bridges ≤ 1
  pub below : (id : ℕ) → r.next_id ≤ id → held id r.bridges ≡ 0

pub Live-get :
    (k : Text) (bs : Map Text Bridge) (b : Bridge)
    → Live bs
    → Map.get k bs ≡ some b
    → b.disposed ≡ false
unfolding Map.get
Live-get k [] b h e = cc
Live-get k ((j, c) ∷ bs) b h e = ground (arith, Live-get k bs b h.1)

Live-set :
    (k : Text) (b : Bridge) (bs : Map Text Bridge)
    → b.disposed ≡ false
    → Live bs
    → Live (Map.set k b bs)
unfolding Map.set
Live-set k b [] e h = (e, tt)
Live-set k b ((j, c) ∷ bs) e h = ground (arith, Live-set k b bs e h.1)

Live-delete : (k : Text) (bs : Map Text Bridge) → Live bs → Live (Map.delete k bs)
unfolding Map.delete
Live-delete k [] h = tt
Live-delete k ((j, c) ∷ bs) h = ground (arith, Live-delete k bs h.1)

held-set-le :
    (id : ℕ) (k : Text) (b : Bridge) (bs : Map Text Bridge)
    → held id (Map.set k b bs) ≤ held id bs + tally id b.id_map
unfolding Map.set held
held-set-le id k b [] = omega arith
held-set-le id k b ((j, c) ∷ bs) = ground (arith, held-set-le id k b bs)

pub held-set :
    (id : ℕ) (k : Text) (b : Bridge) (bs : Map Text Bridge) (old : Bridge)
    → Map.get k bs ≡ some old
    → held id (Map.set k b bs) + tally id old.id_map ≡ held id bs + tally id b.id_map
unfolding Map.set Map.get held
held-set id k b [] old e = cc
held-set id k b ((j, c) ∷ bs) old e = ground (arith, held-set id k b bs old)

held-delete-le : (id : ℕ) (k : Text) (bs : Map Text Bridge) → held id (Map.delete k bs) ≤ held id bs
unfolding Map.delete held
held-delete-le id k [] = omega arith
held-delete-le id k ((j, c) ∷ bs) = ground (arith, held-delete-le id k bs)

pub held-get :
    (id : ℕ) (k : Text) (bs : Map Text Bridge) (b : Bridge)
    → Map.get k bs ≡ some b
    → tally id b.id_map ≤ held id bs
unfolding Map.get held
held-get id k [] b e = cc
held-get id k ((j, c) ∷ bs) b e = ground (arith, held-get id k bs b)

tally-on_writer_message-le :
    (id : ℕ) (m : Message) (b : Bridge)
    → tally id (on_writer_message m b).0.id_map ≤ tally id b.id_map
unfolding on_writer_message
tally-on_writer_message-le id m b = elim (Option-cases (envelope_id m)) [
  | inl e ↦ ground arith
  | inr (n, e) ↦ ground (arith, tally-delete n id b.id_map)
]

held-each_answers-le :
    (id : ℕ) (m : Message) (bs : Map Text Bridge) → held id (each_answers m bs).0 ≤ held id bs
unfolding each_answers held
held-each_answers-le id m [] = omega arith
held-each_answers-le id m ((j, b) ∷ bs) =
    omega (arith, held-each_answers-le id m bs, tally-on_writer_message-le id m b)

disposed-on_writer_message :
    (m : Message) (b : Bridge) → (on_writer_message m b).0.disposed ≡ b.disposed
unfolding on_writer_message
disposed-on_writer_message m b = ground arith

Live-each_answers : (m : Message) (bs : Map Text Bridge) → Live bs → Live (each_answers m bs).0
unfolding each_answers
Live-each_answers m [] h = tt
Live-each_answers m ((j, b) ∷ bs) h =
    (disposed-on_writer_message m b ∙ h.0, Live-each_answers m bs h.1)

pub empty_registry-RegistryInv : RegistryInv empty_registry
unfolding empty_registry held
empty_registry-RegistryInv = record { live = tt; unique = λ id. omega arith; below = λ id h. refl }

-- A turn of one bridge: what it holds afterwards is what it held, or the one id given out.
record Kept (m : Message) (next : ℕ) (b : Bridge) (id : ℕ) : Type 0 where
  more : next ≤ (on_client_message m next b).next_id
  holds :
      (tally id (on_client_message m next b).bridge.id_map ≤ tally id b.id_map)
      ⊎ ((id ≡ next)
          × (tally id (on_client_message m next b).bridge.id_map ≤ tally id b.id_map + 1)
          × ((on_client_message m next b).next_id ≡ next + 1))
  alive :
      b.disposed ≡ false
      → (on_client_message m next b).closed ≡ false
      → (on_client_message m next b).bridge.disposed ≡ false

on_client_message-Kept : (m : Message) (next : ℕ) (b : Bridge) (id : ℕ) → Kept m next b id
unfolding on_client_message
on_client_message-Kept m next b id = record {
  more = ground arith;
  holds = elim (Option-cases (envelope_id m)) [
    | inl e ↦ ground arith
    | inr (n, e) ↦ ground (arith, tally-set next id n b.id_map)
  ];
  alive = ground arith;
}

pub client_says-RegistryInv :
    (k : Text) (m : Message) (r : Registry) → RegistryInv r → RegistryInv (client_says k m r).0
unfolding client_says
client_says-RegistryInv k m r v = elim (Option-cases (Map.get k r.bridges)) [
  | inl e ↦ rw (e, client_says) v
  | inr (b, e) ↦
      let t : Turn = on_client_message m r.next_id b in
      let old = Live-get k r.bridges b v.live e in
      rw (e, client_says)
        (record {
          live = elim (Bool-cases t.closed) [
            | inl c ↦ rw c (Live-delete k r.bridges v.live)
            | inr c ↦ rw c (
                Live-set k t.bridge r.bridges ((on_client_message-Kept m r.next_id b 0).alive old c)
                  v.live)
          ];
          unique = λ id. ground (
            arith,
            (on_client_message-Kept m r.next_id b id).holds,
            (on_client_message-Kept m r.next_id b id).more,
            held-set id k t.bridge r.bridges b,
            held-delete-le id k r.bridges,
            v.unique id,
            v.below id,
          );
          below = λ id h. ground (
            arith,
            (on_client_message-Kept m r.next_id b id).holds,
            (on_client_message-Kept m r.next_id b id).more,
            held-set id k t.bridge r.bridges b,
            held-delete-le id k r.bridges,
            v.unique id,
            v.below id,
          );
        })
]

writer_says-RegistryInv :
    (m : Message) (r : Registry) → RegistryInv r → RegistryInv (writer_says m r).0
unfolding writer_says
writer_says-RegistryInv m r v = record {
  live = Live-each_answers m r.bridges v.live;
  unique = λ id. omega (arith, v.unique id, held-each_answers-le id m r.bridges);
  below = λ id h. omega (arith, v.below id, held-each_answers-le id m r.bridges);
}

pub add_bridge-RegistryInv :
    (k : Text) (ch : Channel) (r : Registry) → RegistryInv r → RegistryInv (add_bridge k ch r).0
unfolding add_bridge tally
add_bridge-RegistryInv k ch r v = record {
  live = Live-set k (new_bridge ch) r.bridges refl v.live;
  unique = λ id. omega (arith, v.unique id, held-set-le id k (new_bridge ch) r.bridges);
  below = λ id h. omega (arith, v.below id, held-set-le id k (new_bridge ch) r.bridges);
}

pub pass-RegistryInv : (t : Traffic) (r : Registry) → RegistryInv r → RegistryInv (pass t r).0
unfolding pass
pass-RegistryInv (from_client k m) r v = client_says-RegistryInv k m r v
pass-RegistryInv (from_writer m) r v = writer_says-RegistryInv m r v
pass-RegistryInv (pairs k ch) r v = add_bridge-RegistryInv k ch r v

pass_all-RegistryInv :
    (ts : List Traffic) (r : Registry) → RegistryInv r → RegistryInv (pass_all ts r).0
unfolding pass_all
pass_all-RegistryInv [] r v = v
pass_all-RegistryInv (t ∷ ts) r v = pass_all-RegistryInv ts (pass t r).0 (pass-RegistryInv t r v)

-- Whatever passes through a new leader, its envelope ids stay distinct over all bridges and below the
-- counter, and no registered bridge is disposed.
pub pass_all-empty-RegistryInv : (ts : List Traffic) → RegistryInv (pass_all ts empty_registry).0
pass_all-empty-RegistryInv ts = pass_all-RegistryInv ts empty_registry empty_registry-RegistryInv
