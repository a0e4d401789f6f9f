-- ===== src/TcpState/Table.antt =====
-- The transitions that change a connection's state.
use grpcreplay.Base.{◌≡◌, ◌≢◌, refl, ◌⊎◌, inl, inr, Option, none, some, List, [], ◌∷◌, ◌++◌, subst}
use grpcreplay.TcpState.{
  State, listen, syn_received1, syn_received2, established, close_wait, last_ack, closed, Event,
  receive_syn, receive_ack, send_syn_ack, receive_fin, send_ack, send_fin, receive_rst, Transition,
  transitions, find_row,
}

-- The life of a connection: opened by the client, closed by the client's FIN or reset.
infix 40 ◌⟶◌
pub data ◌⟶◌ : State → State → Type 0 where
  syn : listen ⟶ syn_received1
  syn_ack : syn_received1 ⟶ syn_received2
  ack : syn_received2 ⟶ established
  fin : established ⟶ close_wait
  own_fin : close_wait ⟶ last_ack
  last : last_ack ⟶ closed
  reset : established ⟶ closed
  reset_early : listen ⟶ closed

abbrev Target : State → Option Transition → Type 0
Target s none = Unit {0}
Target s (some t) = (t.to ≡ s) ⊎ (s ⟶ t.to)

find_row-Target : (s : State) (e : Event) → Target s (find_row transitions s e)
find_row-Target listen receive_syn = inr syn
find_row-Target listen send_ack = inl refl
find_row-Target listen receive_rst = inr reset_early
find_row-Target listen _ = tt
find_row-Target syn_received1 send_syn_ack = inr syn_ack
find_row-Target syn_received1 receive_syn = inl refl
find_row-Target syn_received1 _ = tt
find_row-Target syn_received2 receive_ack = inr ack
find_row-Target syn_received2 send_syn_ack = inl refl
find_row-Target syn_received2 _ = tt
find_row-Target established receive_ack = inl refl
find_row-Target established send_ack = inl refl
find_row-Target established receive_fin = inr fin
find_row-Target established receive_rst = inr reset
find_row-Target established _ = tt
find_row-Target close_wait send_ack = inl refl
find_row-Target close_wait send_fin = inr own_fin
find_row-Target close_wait _ = tt
find_row-Target last_ack receive_ack = inr last
find_row-Target last_ack _ = tt
find_row-Target closed receive_syn = tt
find_row-Target closed _ = tt

-- Every row of the table keeps the state or follows the life of a connection.
pub find_row_⟶ :
    (s : State) (e : Event) (t : Transition)
    → find_row transitions s e ≡ some t
    → t.to ≢ s
    → s ⟶ t.to
find_row_⟶ s e t h ne = pick (subst (Target s) h (find_row-Target s e))
  where
    pick : (t.to ≡ s) ⊎ (s ⟶ t.to) → s ⟶ t.to
    pick (inl same) = absurd (ne same)
    pick (inr edge) = edge

pub State-discrete : Discrete State
State-discrete = hlevel

-- The states that a connection has gone through, with the last one.
pub data Trace : List State → State → Type 0 where
  start : Trace (listen ∷ []) listen
  more : {l l' : List State} {s t : State} → Trace l s → s ⟶ t → l' ≡ l ++ t ∷ [] → Trace l' t
