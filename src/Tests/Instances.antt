-- ===== src/Tests/Instances.antt =====
-- Functions that behave as the third-party packages do, for the tests: the skip list is an
-- association list, the state machine looks its table up, the decoder finds no fields, and a
-- message is its own JSON.
use grpcreplay.Base.{
  ℕ, ◌≡◌, ◌≢◌, refl, ◌==◌, Bool, true, false, Option, none, some, [], if◌then◌else◌, nat_eq, sym,
  subst, ==_iff, Bool-cases, inl, inr, beq_refl, ap, ◌∙◌,
}
use grpcreplay.GoMap.{GoMap, get, put, delete, get-put, get-delete}
use grpcreplay.Packages.{Tcp, SkipList, Hpack, Codecs}
use grpcreplay.TcpState.{
  State, listen, syn_received1, syn_received2, established, close_wait, last_ack, closed,
  state_number, Transition, find_row, GoFsm,
}

pub get-empty : (k : ℕ) → get {V = Tcp} [] k ≡ none
unfolding get
get-empty k = refl

instance abbrev pub skip_list : SkipList
skip_list = record {
  Cache = GoMap ℕ Tcp;
  new = [];
  get = λ c k. get c k;
  set = λ c k p. put c k p;
  remove = λ c k. delete c k;
  get-new = get-empty;
  get-set = λ c k j p. get-put c k j p;
  get-remove = λ c k j. get-delete c k j;
}

instance abbrev pub hpack : Hpack
hpack = record {
  Decoder = ℕ;
  new_decoder = λ size. size;
  decode_full = λ decoder block. (decoder, some []);
  set_max_dynamic_table_size = λ decoder size. size;
}

instance abbrev pub codecs : Codecs
codecs = record { gunzip = λ bytes. none; Descriptor = Unit; to_json = λ type bytes. some bytes }

abbrev same_state : State → State → Bool
same_state a b = state_number a == state_number b

abbrev state_at : ℕ → State
state_at n =
    if n == 0
    then listen
    else if n == 1
    then syn_received1
    else if n == 2
    then syn_received2
    else if n == 3
    then established
    else if n == 4
    then close_wait
    else if n == 5
    then last_ack
    else closed

state_at-state_number : (s : State) → state_at (state_number s) ≡ s
state_at-state_number listen = refl
state_at-state_number syn_received1 = refl
state_at-state_number syn_received2 = refl
state_at-state_number established = refl
state_at-state_number close_wait = refl
state_at-state_number last_ack = refl
state_at-state_number closed = refl

same_state_sound : (a b : State) → same_state a b ≡ true → a ≡ b
same_state_sound a b e =
    sym (state_at-state_number a)
    ∙ ap state_at ((==_iff (state_number a) (state_number b)).0 e)
    ∙ state_at-state_number b

abbrev fire : (S : Type 0) → (State → S → S) → State → S → Option Transition → S × Bool
fire S enter s x none = (x, false)
fire S enter s x (some t) = (if same_state t.to s then x else enter t.to x, true)

pub fire_stays :
    (S : Type 0) (enter : State → S → S) (s : State) (x : S) (t : Transition)
    → t.to ≡ s
    → fire S enter s x (some t) ≡ (x, true)
fire_stays S enter s x t e =
    let same : same_state t.to s ≡ true =
      subst (λ r. same_state t.to r ≡ true) e (beq_refl (state_number t.to)) in
    rw same

pub fire_moves :
    (S : Type 0) (enter : State → S → S) (s : State) (x : S) (t : Transition)
    → t.to ≢ s
    → fire S enter s x (some t) ≡ (enter t.to x, true)
fire_moves S enter s x t ne = elim (Bool-cases (same_state t.to s)) [
  | inl same ↦ absurd (ne (same_state_sound t.to s same))
  | inr other ↦ rw other
]

instance abbrev pub fsm : GoFsm
fsm = record {
  trigger = λ S ts enter s e x. fire S enter s x (find_row ts s e);
  trigger_none = λ S ts enter s e x h. rw h refl;
  trigger_stays =
      λ S ts enter s e x t h same. ap (fire S enter s x) h ∙ fire_stays S enter s x t same;
  trigger_moves =
      λ S ts enter s e x t h other. ap (fire S enter s x) h ∙ fire_moves S enter s x t other;
}
