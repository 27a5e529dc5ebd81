-- ===== src/Streams/Bootstrap.antt =====
-- EnsureStreams of internal/infrastructure/redis/queue.go. Method Error is the parameter `error_text`.
use insider_one_notification.Prelude.{
  ◌≡◌, refl, Bool, true, Bool-cases, inl, inr, Option, none, some, String, List, [], ◌∷◌, ◌++◌, All,
  str_eq, if◌then◌else◌,
}
use insider_one_notification.Errors.{Error, wrap}
use insider_one_notification.Result.{Result, ok, err}
use insider_one_notification.Entity.{Channel, Priority}
use insider_one_notification.Entity.Channels
use insider_one_notification.Entity.Channels.{all_channels}
use insider_one_notification.Entity.Priorities
use insider_one_notification.Entity.Priorities.{all_priorities}
use insider_one_notification.Streams.{stream_key}

-- XGROUP CREATE key group 0 MKSTREAM, for the one group.
pub record Groups : Type 1 where
  pub Server : Type 0
  pub has_group : String → Server → Bool
  pub xgroup_create_mkstream : String → Server → Result (Unit {0}) × Server

module _ (g : Groups) (error_text : Error → String) where
  open g use {Server, has_group, xgroup_create_mkstream}

  unfoldable pub is_consumer_group_exists_err : Error → Bool
  is_consumer_group_exists_err e =
      str_eq (error_text e) "BUSYGROUP Consumer Group name already exists"

  -- What Redis documents: a group that was created is there, a group that exists is reported by the
  -- BUSYGROUP error, and no group is lost.
  abbrev pub AfterCreate : String → Server → Result (Unit {0}) × Server → Type 0
  AfterCreate key s (ok u, s') = has_group key s' ≡ true
  AfterCreate key s (err e, s') = is_consumer_group_exists_err e ≡ true → has_group key s' ≡ true

  pub record Laws : Type 0 where
    pub create_law : (key : String) (s : Server) → AfterCreate key s (xgroup_create_mkstream key s)
    pub create_keeps :
        (key other : String) (s : Server)
        → has_group other s ≡ true
        → has_group other (xgroup_create_mkstream key s).1 ≡ true

  -- The two loops, for the pairs of a channel and a priority in their order, from the first error on.
  after_create : Result (Unit {0}) × Server → Option Error × Server
  unfolding is_consumer_group_exists_err
  after_create (ok u, s) = (none, s)
  after_create (err e, s) =
      if is_consumer_group_exists_err e
      then (none, s)
      else (some (wrap "create consumer group for stream" e), s)

  and_then : Option Error × Server → (Server → Option Error × Server) → Option Error × Server
  and_then (some e, s) next = (some e, s)
  and_then (none, s) next = next s

  ensure_priorities : Channel → List Priority → Server → Option Error × Server
  unfolding after_create and_then
  ensure_priorities ch [] s = (none, s)
  ensure_priorities ch (pr ∷ rest) s =
      and_then (after_create (xgroup_create_mkstream (stream_key ch pr) s))
        (λ s₁. ensure_priorities ch rest s₁)

  ensure_channels : List Channel → Server → Option Error × Server
  unfolding ensure_priorities and_then
  ensure_channels [] s = (none, s)
  ensure_channels (ch ∷ rest) s =
      and_then (ensure_priorities ch all_priorities s) (λ s₁. ensure_channels rest s₁)

  unfoldable pub ensure_streams : Server → Option Error × Server
  unfolding ensure_channels
  ensure_streams s = ensure_channels all_channels s

  module _ (laws : Laws) where
    -- No group is lost, and if the error is nil the streams of the list have their groups.
    abbrev pub Ensures : List (Channel × Priority) → Server → Option Error × Server → Type 0
    Ensures cps s (result, s') =
        ((key : String) → has_group key s ≡ true → has_group key s' ≡ true)
        × (result ≡ none
            → All {A = Channel × Priority} (λ cp. has_group (stream_key cp.0 cp.1) s' ≡ true) cps)

    created-Ensures :
        (ch : Channel) (pr : Priority) (s : Server) (out : Result (Unit {0}) × Server)
        → ((key : String) → has_group key s ≡ true → has_group key out.1 ≡ true)
        → AfterCreate (stream_key ch pr) s out
        → Ensures ((ch, pr) ∷ []) s (after_create out)
    unfolding after_create
    created-Ensures ch pr s (ok u, s') kept there = (kept, λ h. (there, tt))
    created-Ensures ch pr s (err e, s') kept there =
        elim (Bool-cases (is_consumer_group_exists_err e)) [
          | inl exists ↦ rw exists (kept, λ h. (there exists, tt))
          | inr other ↦ rw other (kept, λ h. absurd cc)
        ]

    create-Ensures :
        (ch : Channel) (pr : Priority) (s : Server)
        → Ensures ((ch, pr) ∷ []) s (after_create (xgroup_create_mkstream (stream_key ch pr) s))
    create-Ensures ch pr s =
        let key = stream_key ch pr in
        created-Ensures ch pr s (xgroup_create_mkstream key s)
          (λ other. laws.create_keeps key other s) (laws.create_law key s)

    kept-All :
        (xs ys : List (Channel × Priority)) (s s' : Server)
        → ((key : String) → has_group key s ≡ true → has_group key s' ≡ true)
        → All {A = Channel × Priority} (λ cp. has_group (stream_key cp.0 cp.1) s ≡ true) xs
        → All {A = Channel × Priority} (λ cp. has_group (stream_key cp.0 cp.1) s' ≡ true) ys
        → All {A = Channel × Priority} (λ cp. has_group (stream_key cp.0 cp.1) s' ≡ true) (xs ++ ys)
    kept-All [] ys s s' kept tt later = later
    kept-All ((c, p) ∷ xs) ys s s' kept (h, hs) later =
        (kept (stream_key c p) h, kept-All xs ys s s' kept hs later)

    Ensures-and_then :
        (xs ys : List (Channel × Priority)) (s : Server) (out : Option Error × Server)
        (next : Server → Option Error × Server)
        → Ensures xs s out
        → ((s₁ : Server) → Ensures ys s₁ (next s₁))
        → Ensures (xs ++ ys) s (and_then out next)
    unfolding and_then
    Ensures-and_then xs ys s (some e, s₁) next (kept, all) later = (kept, λ h. absurd cc)
    Ensures-and_then xs ys s (none, s₁) next (kept, all) later =
        let (kept', all') = later s₁ in
        (
          λ key h. kept' key (kept key h),
          λ h. kept-All xs ys s₁ (next s₁).1 kept' (all refl) (all' h),
        )

    abbrev paired : Channel → List Priority → List (Channel × Priority)
    paired ch [] = []
    paired ch (pr ∷ prs) = (ch, pr) ∷ paired ch prs

    abbrev grid : List Channel → List (Channel × Priority)
    grid [] = []
    grid (ch ∷ chs) = paired ch all_priorities ++ grid chs

    priorities_ensure :
        (ch : Channel) (prs : List Priority) (s : Server)
        → Ensures (paired ch prs) s (ensure_priorities ch prs s)
    unfolding ensure_priorities
    priorities_ensure ch [] s = (λ key h. h, λ h. tt)
    priorities_ensure ch (pr ∷ prs) s =
        Ensures-and_then ((ch, pr) ∷ []) (paired ch prs) s _ (λ s₁. ensure_priorities ch prs s₁)
          (create-Ensures ch pr s) (priorities_ensure ch prs)

    channels_ensure :
        (chs : List Channel) (s : Server) → Ensures (grid chs) s (ensure_channels chs s)
    unfolding ensure_channels
    channels_ensure [] s = (λ key h. h, λ h. tt)
    channels_ensure (ch ∷ chs) s =
        Ensures-and_then (paired ch all_priorities) (grid chs) s _ (λ s₁. ensure_channels chs s₁)
          (priorities_ensure ch all_priorities s) (channels_ensure chs)

    in_grid :
        (s : Server) (ch : Channel) (pr : Priority)
        → Channels.is_valid ch ≡ true
        → Priorities.is_valid pr ≡ true
        → All {A = Channel × Priority}
            (λ cp. has_group (stream_key cp.0 cp.1) s ≡ true)
            (grid all_channels)
        → has_group (stream_key ch pr) s ≡ true
    unfolding Channels.is_valid Priorities.is_valid
    in_grid s Channels.sms Priorities.high hc hp all = all.0
    in_grid s Channels.sms Priorities.normal hc hp all = all.1.0
    in_grid s Channels.sms Priorities.low hc hp all = all.1.1.0
    in_grid s Channels.email Priorities.high hc hp all = all.1.1.1.0
    in_grid s Channels.email Priorities.normal hc hp all = all.1.1.1.1.0
    in_grid s Channels.email Priorities.low hc hp all = all.1.1.1.1.1.0
    in_grid s Channels.push Priorities.high hc hp all = all.1.1.1.1.1.1.0
    in_grid s Channels.push Priorities.normal hc hp all = all.1.1.1.1.1.1.1.0
    in_grid s Channels.push Priorities.low hc hp all = all.1.1.1.1.1.1.1.1.0
    in_grid s (Channels.other_channel x) pr hc hp all = cc
    in_grid s Channels.sms (Priorities.other_priority x) hc hp all = cc
    in_grid s Channels.email (Priorities.other_priority x) hc hp all = cc
    in_grid s Channels.push (Priorities.other_priority x) hc hp all = cc

    -- EnsureStreams loses no group that was there, and if its error is nil then the stream of every valid
    -- channel and priority has its group, whether it was created now or before.
    pub ensure_streams_ready :
        (s : Server)
        → ((key : String) → has_group key s ≡ true → has_group key (ensure_streams s).1 ≡ true)
          × ((ensure_streams s).0 ≡ none
              → (ch : Channel) (pr : Priority) → Channels.is_valid ch ≡ true
              → Priorities.is_valid pr ≡ true
              → has_group (stream_key ch pr) (ensure_streams s).1 ≡ true)
    unfolding ensure_streams
    ensure_streams_ready s =
        let (kept, all) = channels_ensure all_channels s in
        (kept, λ h ch pr hc hp. in_grid (ensure_channels all_channels s).1 ch pr hc hp (all h))
