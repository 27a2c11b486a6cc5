-- ===== src/LlmProxy/Gate.antt =====
-- Gate of llm_proxy.py: admission to one model. Each method runs under the gate's lock, and is told
-- the monotonic time at which it does; -inf is `none`.
pub mod Counters
pub mod Held
pub mod Queue
use purdue_af.Common.{
  ℕ, zero, suc, ◌+◌, ◌-◌, ◌*◌, ◌/◌, ◌^◌, max, min, Bool, true, false, not, ◌&&◌, ◌||◌, Option, none,
  some, List, [], ◌∷◌, ◌++◌, ltb, leb, ◌==◌, if◌then◌else◌, length, sum_by, is_some,
}
use purdue_af.LlmProxy.{Settings, Model}
use purdue_af.LlmProxy.Samples.{Samples, drop_old, value, values, quantile, twice_median}

-- A waiting request: its number, its class and since when it waits.
pub record Waiter : Type 0 where
  pub seq : ℕ
  pub rank : ℕ
  pub since : ℕ

pub record Gate : Type 0 where
  pub slots : ℕ
  pub busy : ℕ
  pub held : ℕ
  pub output : Samples
  pub ttfts : Samples
  pub decodes : Samples
  pub waiting : List Waiter
  pub paused_until : ℕ
  pub failures : ℕ
  pub failing_since : Option ℕ
  pub last_failure : Option ℕ
  pub unhealthy_until : ℕ
  pub adjusted : Option ℕ
  pub last_seq : ℕ

unfoldable pub new_gate : Model → Gate
new_gate m = record {
  slots = m.start;
  busy = 0;
  held = 0;
  output = [];
  ttfts = [];
  decodes = [];
  waiting = [];
  paused_until = 0;
  failures = 0;
  failing_since = none;
  last_failure = none;
  unhealthy_until = 0;
  adjusted = none;
  last_seq = 0;
}

-- Gate._first's order: the class, one less for each AGING waited, then who came first.
unfoldable pub class_of : ℕ → Waiter → ℕ
class_of now w = w.rank - (now - w.since) / 600000

unfoldable pub is_before : ℕ → Waiter → Waiter → Bool
unfolding class_of
is_before now a b =
    ltb (class_of now a) (class_of now b) || class_of now a == class_of now b && ltb a.since b.since

-- min(): the first of the least.
unfoldable pub least : ℕ → Waiter → List Waiter → Waiter
least now best [] = best
least now best (w ∷ ws) = least now (if is_before now w best then w else best) ws

unfoldable pub first : ℕ → ℕ → List Waiter → Bool
first seq now [] = false
first seq now (w ∷ ws) = (least now w ws).seq == seq

-- `del waiting[seq]`
unfoldable pub without : ℕ → List Waiter → List Waiter
without seq [] = []
without seq (w ∷ ws) = let rest = without seq ws in if w.seq == seq then rest else w ∷ rest

-- Gate.acquire, up to its loop: the request's number is the last one afterwards.
unfoldable pub enter : ℕ → ℕ → Gate → Gate
enter rank now g = record g {
  last_seq = g.last_seq + 1;
  waiting = g.waiting ++ record { seq = g.last_seq + 1; rank = rank; since = now } ∷ [];
}

unfoldable pub has_room : Model → ℕ → ℕ → Gate → Bool
has_room m tokens now g =
    ltb g.busy g.slots
    && ((leb (g.held + tokens) m.budget || g.busy == 0) && leb g.paused_until now)

-- Gate._out
unfoldable pub out : ℕ → Gate → Gate × ℕ
out now g =
    let kept = drop_old 60000 now g.output in (record g { output = kept }, sum_by value kept)

-- Gate._fits
unfoldable pub fits : Model → ℕ → ℕ → Gate → Gate × Bool
fits m tokens now g =
    if has_room m tokens now g
    then (let (g', made) = out now g in (g', ltb made m.output_per_minute))
    else (g, false)

pub data Turn : Type 0 where
  admitted refused : Turn
  waits : ℕ → Turn

abbrev leave : ℕ → Gate → Gate
leave seq g = record g { waiting = without seq g.waiting }

unfoldable pub wake : ℕ → ℕ → Gate → ℕ
wake now deadline g =
    let soon = min 1000 (deadline - now) in
    if ltb now g.paused_until then min soon (g.paused_until - now) else soon

unfoldable pub after_fits : ℕ → ℕ → ℕ → ℕ → Gate × Bool → Gate × Turn
after_fits seq tokens now deadline (g, fit) =
    if fit && first seq now g.waiting
    then (leave seq (record g { busy = g.busy + 1; held = g.held + tokens }), admitted)
    else if leb deadline now
    then (leave seq g, refused)
    else (g, waits (wake now deadline g))

-- One pass of Gate.acquire's loop, with what `finally` does where it returns.
unfoldable pub turn : Model → ℕ → ℕ → ℕ → ℕ → Bool → Gate → Gate × Turn
turn m seq tokens now deadline cancelled g =
    if cancelled
    then (leave seq g, refused)
    else after_fits seq tokens now deadline (fits m tokens now g)

unfoldable pub release : ℕ → ℕ → ℕ → Gate → Gate
release tokens completion now g = record g {
  busy = g.busy - 1;
  held = g.held - tokens;
  output = if completion == 0 then g.output else g.output ++ (now, completion) ∷ [];
}

-- Gate._trim
unfoldable pub trim : ℕ → Gate → Gate
trim now g = record g {
  ttfts = drop_old 900000 now g.ttfts;
  decodes = drop_old 900000 now g.decodes;
}

-- `now - at < span`, of a time that may be -inf
abbrev pub is_within : ℕ → ℕ → Option ℕ → Bool
is_within span now none = false
is_within span now (some at) = ltb (now - at) span

unfoldable pub halve : ℕ → Gate → Gate
halve now g = record g { slots = max 1 (g.slots / 2); adjusted = some now }

-- Whether the recent replies are slow beside the typical ones.
unfoldable pub is_slow : Model → Gate → Bool
is_slow m g =
    ltb (6 * m.ttft) (if length g.ttfts == 0 then 0 else twice_median (values g.ttfts))
    || ltb (twice_median (values g.decodes)) m.decode

-- Gate._adjust
unfoldable pub adjust : Model → ℕ → Gate → Gate
adjust m now g =
    if ltb (length g.decodes) 5 || is_within 300000 now g.adjusted
    then g
    else if is_slow m g
    then halve now g
    else if not (is_within 600000 now g.adjusted) && ltb g.slots m.most
    then record g { slots = g.slots + 1; adjusted = some now }
    else g

unfoldable pub sample : ℕ → Option ℕ → Samples → Samples
sample now none s = s
sample now (some v) s = s ++ (now, v) ∷ []

unfoldable pub observe : Model → Option ℕ → Option ℕ → ℕ → Gate → Gate
observe m ttft decode now g =
    adjust m now (
      trim now
        (record g { ttfts = sample now ttft g.ttfts; decodes = sample now decode g.decodes }))

unfoldable pub succeeded : Model → Option ℕ → Option ℕ → ℕ → Gate → Gate
succeeded m ttft decode now g =
    observe m ttft decode now (record g { failures = 0; failing_since = none })

-- `self.failing_since or now`: a time of zero is no time.
abbrev pub since_or : ℕ → Option ℕ → ℕ
since_or now none = now
since_or now (some zero) = now
since_or now (some (suc t)) = suc t

-- The failures that are too long ago are forgotten, and this one is counted.
unfoldable pub count_failure : Settings → ℕ → Gate → Gate
count_failure c now g =
    let g' =
      if is_within (c.backoff_max + 1) now g.last_failure
      then g
      else record g { failures = 0; failing_since = none } in
    record g' {
      failures = g'.failures + 1;
      last_failure = some now;
      failing_since = some (since_or now g'.failing_since);
    }

unfoldable pub mark_unhealthy : ℕ → Gate → Gate
mark_unhealthy now g =
    if leb 1800000 (now - since_or now g.failing_since)
    then record g { unhealthy_until = now + 600000 }
    else g

-- min(backoff_max_seconds, base) times random.uniform(0.75, 1.25), here `jitter` thousandths.
unfoldable pub backoff_of : Settings → ℕ → ℕ → ℕ
backoff_of c attempt jitter = min c.backoff_max (c.backoff * 2 ^ (attempt - 1)) * jitter / 1000

-- What a request waits: the model's own Retry-After, for which the whole gate pauses, or its backoff.
unfoldable pub pause : Option ℕ → ℕ → ℕ → Gate → Gate × ℕ
pause none backoff now g = (g, backoff)
pause (some wait) backoff now g = (record g { paused_until = now + wait }, wait)

unfoldable pub failed : Settings → Option ℕ → ℕ → ℕ → ℕ → Gate → Gate × ℕ
failed c retry_after attempt jitter now g =
    let counted = count_failure c now g in
    let halved = if is_within 300000 now counted.adjusted then counted else halve now counted in
    let marked = mark_unhealthy now halved in
    pause retry_after (backoff_of c attempt jitter) now marked

unfoldable pub healthy : ℕ → Gate → Bool
healthy now g = leb g.unhealthy_until now

-- The slow end of the model's recent speeds and times to the first token, or of what is configured.
unfoldable pub slow_end : Model → Gate → ℕ × ℕ
slow_end m g =
    if leb 5 (length g.decodes)
    then (
      quantile (values g.decodes) 1,
      if length g.ttfts == 0 then 0 else quantile (values g.ttfts) 9,
    )
    else (m.slow, m.late)

-- Gate.cap, and the gate, whose samples it trims.
unfoldable pub cap : Settings → Model → ℕ → Gate → Gate × ℕ
cap c m now g =
    let g' = trim now g in
    let (slow, late) = slow_end m g' in
    (g', max m.floor (min m.ceiling (slow * (c.stream_time - late) / 1000000)))
