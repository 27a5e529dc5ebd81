-- ===== src/Examples/StreamRuns.antt =====
-- One Redis server that never fails, and a codec for one notification.
use native.Mathlib.Decide.{ℕ_discrete}
use text.Mathlib.TextEquality.{eq_iff}
use insider_one_notification.Prelude.{
  ℕ, zero, suc, ◌≡◌, ◌≢◌, refl, sym, ◌∙◌, ap, inl, inr, Bool-cases, true≢false, String, List, [],
  ◌∷◌, ◌++◌, take, length-take-le, str_eq, if◌then◌else◌,
}
use insider_one_notification.Errors.{plain}
use insider_one_notification.Result.{Result, ok, err}
use insider_one_notification.Entity.{Notification, Channel, Priority, email, high, low, push}
use insider_one_notification.Streams.{Client, Laws, Codec, XMessage, read_streams}
use insider_one_notification.Streams.Fifo.{Call, enqueue, dequeue, ack, run}
use insider_one_notification.Examples.EntityRuns.{welcome}

pub record Redis : Type 0 where
  pub log : List (String × XMessage)
  pub waiting : String → List XMessage
  pub acked : List (String × String)

abbrev pub put : String → List XMessage → (String → List XMessage) → String → List XMessage
put key ms waiting other = if str_eq other key then ms else waiting other

pub put_same :
    (key : String) (ms : List XMessage) (f : String → List XMessage) → put key ms f key ≡ ms
put_same key ms f = rw ((eq_iff key key).1 refl)

pub put_other :
    (key : String) (ms : List XMessage) (f : String → List XMessage) (other : String)
    → other ≢ key
    → put key ms f other ≡ f other
put_other key ms f other differs = elim (Bool-cases (str_eq other key)) [
  | inl same ↦ absurd (differs ((eq_iff other key).0 same))
  | inr miss ↦ rw miss
]

abbrev pub drop : ℕ → List XMessage → List XMessage
drop zero ms = ms
drop (suc n) [] = []
drop (suc n) (m ∷ ms) = drop n ms

pub take-drop : (n : ℕ) (ms : List XMessage) → ms ≡ take n ms ++ drop n ms
take-drop zero ms = refl
take-drop (suc n) [] = refl
take-drop (suc n) (m ∷ ms) = ap (λ xs. m ∷ xs) (take-drop n ms)

abbrev pub redis : Client
redis = record {
  Server = Redis;
  entries = λ s. s.log;
  unread = λ key s. s.waiting key;
  acks = λ s. s.acked;
  xadd = λ key values s. (
    ok tt,
    record {
      log = s.log ++ (key, record { id = "1-0"; values = values }) ∷ [];
      waiting = put key (s.waiting key ++ record { id = "1-0"; values = values } ∷ []) s.waiting;
      acked = s.acked;
    },
  );
  xread_group = λ key count s. (
    read_streams (record { stream = key; messages = take count (s.waiting key) } ∷ []),
    record s { waiting = put key (drop count (s.waiting key)) s.waiting },
  );
  xack = λ key id s. (ok tt, record s { acked = s.acked ++ (key, id) ∷ [] });
}

pub redis_laws : Laws redis
redis_laws = record {
  add_law =
      λ key values s. ("1-0", refl, put_same key _ s.waiting, put_other key _ s.waiting, refl);
  read_law = λ key count s. (
    take count (s.waiting key),
    refl,
    length-take-le count (s.waiting key),
    (
      take-drop count (s.waiting key)
          ∙ ap (λ ms. take count (s.waiting key) ++ ms) (sym (put_same key _ s.waiting)),
      put_other key _ s.waiting,
      refl,
      refl,
    ),
  );
  ack_law = λ key id s. inl (refl, refl);
  ack_keeps = λ key id s. (refl, λ other. refl);
}

pub String-discrete : Discrete String
String-discrete s t = elim (Bool-cases (str_eq s t)) [
  | inl hit ↦ yes ((eq_iff s t).0 hit)
  | inr miss ↦ no (λ e. true≢false (sym ((eq_iff s t).1 e) ∙ miss))
]

pub Channel-discrete : Discrete Channel
Channel-discrete = hlevel String-discrete

pub Priority-discrete : Discrete Priority
Priority-discrete = hlevel String-discrete

pub Notification-discrete : Discrete Notification
Notification-discrete = hlevel (ℕ_discrete, String-discrete)

-- The one notification that the codec can write.
abbrev pub known : Notification
known = welcome 1 "k1"

abbrev pub marshal_decided : {n : Notification} → Dec (n ≡ known) → Result String
marshal_decided (yes same) = ok "welcome"
marshal_decided (no other) = err (plain "unsupported")

pub marshal_decided_back :
    (n : Notification) (d : Dec (n ≡ known)) (text : String)
    → marshal_decided d ≡ ok text
    → ◌≡◌ {A = Result Notification} (ok known) (ok n)
marshal_decided_back n (yes same) text h = ap ok (sym same)
marshal_decided_back n (no other) text h = cc

abbrev pub codec : Codec
codec = record {
  marshal = λ n. marshal_decided (Notification-discrete n known);
  unmarshal = λ text. ok known;
  marshal_back = λ n text h. marshal_decided_back n (Notification-discrete n known) text h;
}

abbrev pub empty : Redis
empty = record { log = []; waiting = λ key. []; acked = [] }

-- The state after one Enqueue.
abbrev pub with_one : Redis
with_one = run codec redis (enqueue known ∷ []) empty

abbrev calls : List Call
calls =
    enqueue known
    ∷ dequeue push low 1
    ∷ dequeue email high 1
    ∷ ack email high "1-0"
    ∷ enqueue known
    ∷ []
