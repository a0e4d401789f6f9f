-- ===== src/Processor/Invariant.antt =====
-- What holds of the processor's two maps after any packets.
use grpcreplay.Base.{
  ◌≡◌, refl, sym, ap, subst, ◌∙◌, inl, inr, Bool, true, false, Option, none, some, [], ◌∷◌, ◌++◌,
  arith, Bool-cases, if◌then◌else◌,
}
use mathlib.Core.Option.{some-injective}
use grpcreplay.GoMap.{get, put, delete, get-put, get-delete, get-put_self}
use grpcreplay.NetPkg.{DirectConn, direct_conn_key, direct_conn_eq, direct_conn_eq_iff, NetPkg}
use grpcreplay.Packages.{SkipList, Hpack, Codecs}
use grpcreplay.TcpState.{
  State, established, close_wait, last_ack, TcpConnectionState, new_tcp_connection,
}
use grpcreplay.TcpState.Table.{
  ◌⟶◌, syn, syn_ack, ack, fin, own_fin, last, reset, reset_early, Trace, start, more,
}
use grpcreplay.Conn.{Http2Conn}
use grpcreplay.Processor.{
  Processor, new_processor, established_conn, on_enter, entered, lookup_state,
}

-- The states in which a connection's frames are recorded.
abbrev pub open_state : State → Bool
open_state established = true
open_state close_wait = true
open_state last_ack = true
open_state _ = false

abbrev pub is_open : Option TcpConnectionState → Bool
is_open none = false
is_open (some ts) = open_state ts.state

abbrev pub is_some {ℓ} : {A : Type ℓ} → Option A → Bool
is_some none = false
is_some (some a) = true

module _ ⦃s : SkipList⦄ ⦃h : Hpack⦄ ⦃c : Codecs⦄ where
  -- Each connection is under its own key, in a state that the table leads to from LISTEN through
  -- the states on record; and a connection is in the repository exactly while it is open.
  pub record Inv (p : Processor) : Type 0 where
    pub traced :
        (dc : DirectConn) (ts : TcpConnectionState)
        → get p.conn_states dc ≡ some ts
        → (ts.dc ≡ dc) × Trace ts.states ts.state
    pub recorded :
        (dc : DirectConn) → is_some (get p.conn_repository dc) ≡ is_open (get p.conn_states dc)

  -- The connection at hand is the one in the map.
  abbrev pub Held : DirectConn → Processor × TcpConnectionState → Type 0
  Held dc x = get x.0.conn_states dc ≡ some x.1

  pub new_processor-Inv : (record_response : Bool) → Inv (new_processor record_response)
  unfolding new_processor get
  new_processor-Inv r = record { traced = λ dc ts e. absurd (cc); recorded = λ dc. refl }

  -- One connection's entry changes to `o`, and the repository follows.
  update-Inv :
      (p p' : Processor) (dc : DirectConn) (o : Option TcpConnectionState)
      → ((j : DirectConn)
          → get p'.conn_states j ≡ (if direct_conn_eq dc j then o else get p.conn_states j))
      → ((j : DirectConn)
          → is_some (get p'.conn_repository j)
            ≡ (if direct_conn_eq dc j then is_open o else is_some (get p.conn_repository j)))
      → ((ts : TcpConnectionState) → o ≡ some ts → (ts.dc ≡ dc) × Trace ts.states ts.state)
      → Inv p
      → Inv p'
  update-Inv p p' dc o states repository good v = record {
    traced = λ j ts f. elim (Bool-cases (direct_conn_eq dc j)) [
      | inl same ↦
          subst (λ k. (ts.dc ≡ k) × Trace ts.states ts.state) ((direct_conn_eq_iff dc j).0 same)
            (good ts (ground (arith, states j)))
      | inr other ↦ v.traced j ts (ground (arith, states j))
    ];
    recorded = λ j. elim (Bool-cases (direct_conn_eq dc j)) [
      | inl same ↦ ground (arith, states j, repository j)
      | inr other ↦ ground (arith, states j, repository j, v.recorded j)
    ];
  }

  -- A repository that stays, where the entry is as open as before.
  stays :
      (p : Processor) (dc j : DirectConn) (b : Bool)
      → is_some (get p.conn_repository dc) ≡ b
      → is_some (get p.conn_repository j)
        ≡ (if direct_conn_eq dc j then b else is_some (get p.conn_repository j))
  stays p dc j b e = elim (Bool-cases (direct_conn_eq dc j)) [
    | inl same ↦
        rw same
          (subst (λ k. is_some (get p.conn_repository k) ≡ b) ((direct_conn_eq_iff dc j).0 same) e)
    | inr other ↦ rw other refl
  ]

  pub lookup_state-Inv :
      (p : Processor) (dc : DirectConn) (o : Option TcpConnectionState)
      → get p.conn_states dc ≡ o
      → Inv p
      → Inv (lookup_state p dc o).0 × Held dc (lookup_state p dc o)
  unfolding lookup_state new_tcp_connection
  lookup_state-Inv p dc (some ts) e v = (v, e)
  lookup_state-Inv p dc none e v =
      let ts = new_tcp_connection dc in
      (
        update-Inv p _ dc (some ts) (λ j. get-put p.conn_states dc j ts)
            (λ j. stays p dc j false (v.recorded dc ∙ ap is_open e))
            (λ x f.
              subst (λ (y : TcpConnectionState). (y.dc ≡ dc) × Trace y.states y.state)
                (some-injective _ _ f) (refl, start))
            v,
        get-put_self p.conn_states dc ts,
      )

  -- The entry of a connection that moves along an edge.
  abbrev moved : TcpConnectionState → State → TcpConnectionState
  moved ts t = record ts { state = t; states = ts.states ++ t ∷ [] }

  -- An edge to a state other than CLOSED.
  moved-Inv :
      (p p' : Processor) (ts : TcpConnectionState) (a t : State)
      → ts.state ≡ a
      → a ⟶ t
      → p'.conn_states ≡ put p.conn_states ts.dc (moved ts t)
      → ((j : DirectConn)
          → is_some (get p'.conn_repository j)
            ≡ (if direct_conn_eq ts.dc j then open_state t else is_some (get p.conn_repository j)))
      → Held ts.dc (p, ts)
      → Inv p
      → Inv p'
  moved-Inv p p' ts a t q edge states repository held v =
      update-Inv p p' ts.dc (some (moved ts t))
        (λ j. ap (λ m. get m j) states ∙ get-put p.conn_states ts.dc j (moved ts t)) repository
        (λ x f.
          subst (λ (y : TcpConnectionState). (y.dc ≡ ts.dc) × Trace y.states y.state)
            (some-injective _ _ f)
            (refl, more (v.traced ts.dc ts held).1 (subst (λ b. b ⟶ t) (sym q) edge) refl))
        v

  closed-Inv :
      (p : Processor) (ts : TcpConnectionState)
      → Inv p
      → Inv (record p {
        conn_states = delete p.conn_states ts.dc;
        conn_repository = delete p.conn_repository ts.dc;
      })
  closed-Inv p ts v =
      update-Inv p _ ts.dc none (λ j. get-delete p.conn_states ts.dc j)
        (λ j. ground (arith, get-delete p.conn_repository ts.dc j)) (λ x f. cc) v

  pub on_enter-Inv :
      (pkg : NetPkg) (p : Processor) (ts : TcpConnectionState) (a t : State)
      → a ⟶ t
      → ts.state ≡ a
      → Held ts.dc (p, ts)
      → Inv p
      → Inv (on_enter pkg t (p, ts)).0
  unfolding on_enter entered
  on_enter-Inv pkg p ts a t edge q held v = go a t edge q
    where
      before : (b : State) → ts.state ≡ b → is_some (get p.conn_repository ts.dc) ≡ open_state b
      before b e = v.recorded ts.dc ∙ ap is_open held ∙ ap open_state e

      same :
          (b : State)
          → ts.state ≡ b
          → (j : DirectConn)
          → is_some (get p.conn_repository j)
            ≡ (if direct_conn_eq ts.dc j then open_state b else is_some (get p.conn_repository j))
      same b e j = stays p ts.dc j (open_state b) (before b e)

      go : (a t : State) → a ⟶ t → ts.state ≡ a → Inv (on_enter pkg t (p, ts)).0
      go a t syn e = moved-Inv p _ ts a t e syn refl (same a e) held v
      go a t syn_ack e = moved-Inv p _ ts a t e syn_ack refl (same a e) held v
      go a t ack e =
          moved-Inv p _ ts a t e ack refl
            (λ j. ground (
              arith,
              get-put p.conn_repository ts.dc j (established_conn ts.dc pkg p.record_response),
            ))
            held v
      go a t fin e = moved-Inv p _ ts a t e fin refl (same a e) held v
      go a t own_fin e = moved-Inv p _ ts a t e own_fin refl (same a e) held v
      go a t last e = closed-Inv p ts v
      go a t reset e = closed-Inv p ts v
      go a t reset_early e = closed-Inv p ts v

  -- The payload changes no state, and of the repository only what is under an existing key.
  pub put_existing :
      (p : Processor) (k j : DirectConn) (old new : Http2Conn)
      → get p.conn_repository k ≡ some old
      → is_some (get (put p.conn_repository k new) j) ≡ is_some (get p.conn_repository j)
  put_existing p k j old new e = elim (Bool-cases (direct_conn_eq k j)) [
    | inl same ↦ ground (
      arith,
      get-put p.conn_repository k j new,
      subst (λ i. get p.conn_repository i ≡ some old) ((direct_conn_eq_iff k j).0 same) e,
    )
    | inr other ↦ ground (arith, get-put p.conn_repository k j new)
  ]
