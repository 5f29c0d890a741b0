-- ===== src/Timers/Report.antt =====
-- web/src/components/ui/error-alert.tsx: the button that files a bug report, over clicks, answers and
-- milliseconds. What a report and a prefilled issue say, and the text of an error's toast, are left out.
use tidyboard.Prelude.{
  ◌≡◌, ℕ, suc, ◌+◌, ◌-◌, ◌≤◌, Bool, true, false, ◌||◌, List, [], ◌∷◌, Option, none, some, String,
  if◌then◌else◌, leb, Bool-cases, inl, inr, arith,
}
use tidyboard.Auth.Session.{Reply, answer, failure}

pub record Filed : Type 0 where
  pub issue_number : ℕ
  pub issue_url : String

pub data Toast : Type 0 where
  success : ℕ → String → Toast
  error : Toast

-- `REPORT_COOLDOWN_MS`
abbrev pub report_cooldown_ms : ℕ
report_cooldown_ms = 60000

-- The component's state, the clock, and a record of what it did: the times of its posts, the latest
-- first, and how often it opened the prefilled issue.
pub record Report : Type 0 where
  pub report_disabled : Bool
  pub inflight : Bool
  pub cooldown : Option ℕ
  pub toast : Option Toast
  pub now : ℕ
  pub posts : List ℕ
  pub opened : ℕ

pub data ReportEvent : Type 0 where
  click passes : ReportEvent
  answered : Reply Filed → ReportEvent

abbrev pub shown : ℕ → Report
shown now = record {
  report_disabled = false;
  inflight = false;
  cooldown = none;
  toast = none;
  now = now;
  posts = [];
  opened = 0;
}

-- `handleReport` to its `await`.
abbrev pub handle_report : Report → Report
handle_report r = if r.report_disabled || r.inflight then r else record {
  report_disabled = true;
  inflight = true;
  cooldown = some report_cooldown_ms;
  toast = r.toast;
  now = r.now;
  posts = r.now ∷ r.posts;
  opened = r.opened;
}

abbrev pub answered_with : Report → Toast → ℕ → Report
answered_with r toast opened = record {
  report_disabled = r.report_disabled;
  inflight = false;
  cooldown = r.cooldown;
  toast = some toast;
  now = r.now;
  posts = r.posts;
  opened = opened;
}

-- The rest of it; an answer comes only to a post that waits.
abbrev pub report_answered : Report → Reply Filed → Report
report_answered r (answer f) =
    if r.inflight then answered_with r (success f.issue_number f.issue_url) r.opened else r
report_answered r failure = if r.inflight then answered_with r error (suc r.opened) else r

abbrev with_clock : Bool → Option ℕ → Report → Report
with_clock disabled cooldown r = record {
  report_disabled = disabled;
  inflight = r.inflight;
  cooldown = cooldown;
  toast = r.toast;
  now = suc r.now;
  posts = r.posts;
  opened = r.opened;
}

abbrev millisecond : Option ℕ → Report → Report
millisecond none r = with_clock r.report_disabled none r
millisecond (some left) r =
    if leb left 1 then with_clock false none r else with_clock r.report_disabled (some (left - 1)) r

abbrev pub report_step : Report → ReportEvent → Report
report_step r click = handle_report r
report_step r passes = millisecond r.cooldown r
report_step r (answered res) = report_answered r res

abbrev pub report_run : Report → List ReportEvent → Report
report_run r [] = r
report_run r (e ∷ es) = report_run (report_step r e) es

-- Each time is at least the pause later than the one before it.
abbrev pub Spaced : List ℕ → Type 0
Spaced [] = Unit
Spaced (t ∷ []) = Unit
Spaced (t ∷ u ∷ ts) = (u + report_cooldown_ms ≤ t) × Spaced (u ∷ ts)

abbrev LeftOf : ℕ → ℕ → List ℕ → Type 0
LeftOf left now [] = ⊥
LeftOf left now (t ∷ _) = (left + now ≡ t + report_cooldown_ms) × (1 ≤ left)

abbrev Rested : ℕ → List ℕ → Type 0
Rested now [] = Unit
Rested now (t ∷ _) = t + report_cooldown_ms ≤ now

-- The button is off exactly while the timer runs, which has what is left of the pause.
abbrev Due : Bool → Option ℕ → ℕ → List ℕ → Type 0
Due true none now posts = ⊥
Due true (some left) now posts = LeftOf left now posts
Due false none now posts = Rested now posts
Due false (some left) now posts = ⊥

abbrev Good : Report → Type 0
Good r = Due r.report_disabled r.cooldown r.now r.posts × Spaced r.posts

abbrev report : Bool → Bool → Option ℕ → Option Toast → ℕ → List ℕ → ℕ → Report
report d i c toast now posts opened = record {
  report_disabled = d;
  inflight = i;
  cooldown = c;
  toast = toast;
  now = now;
  posts = posts;
  opened = opened;
}

posted-Good :
    (now : ℕ) (posts : List ℕ)
    → Rested now posts
    → Spaced posts
    → Due true (some report_cooldown_ms) now (now ∷ posts) × Spaced (now ∷ posts)
posted-Good now [] d s = ((omega arith, omega arith), tt)
posted-Good now (t ∷ ts) d s = ((omega arith, omega arith), (d, s))

tick-Rested : (now : ℕ) (posts : List ℕ) → Rested now posts → Rested (suc now) posts
tick-Rested now [] d = tt
tick-Rested now (t ∷ ts) d = omega arith

click-Good :
    (d i : Bool) (c : Option ℕ) (toast : Option Toast) (now : ℕ) (posts : List ℕ) (opened : ℕ)
    → Good (report d i c toast now posts opened)
    → Good (handle_report (report d i c toast now posts opened))
click-Good true i c toast now posts opened h = h
click-Good false true c toast now posts opened h = h
click-Good false false none toast now posts opened (d, s) = posted-Good now posts d s
click-Good false false (some left) toast now posts opened (d, s) = absurd d

passes-Good :
    (d i : Bool) (c : Option ℕ) (toast : Option Toast) (now : ℕ) (posts : List ℕ) (opened : ℕ)
    → Good (report d i c toast now posts opened)
    → Good (millisecond c (report d i c toast now posts opened))
passes-Good true i none toast now posts opened (d, s) = absurd d
passes-Good false i none toast now posts opened (d, s) = (tick-Rested now posts d, s)
passes-Good false i (some left) toast now posts opened (d, s) = absurd d
passes-Good true i (some left) toast now [] opened (d, s) = absurd d
passes-Good true i (some left) toast now (t ∷ ts) opened (d, s) = elim (Bool-cases (leb left 1)) [
  | inl e ↦ rw e (ground arith, s)
  | inr e ↦ rw e ((ground arith, ground arith), s)
]

answered-Good : (r : Report) (res : Reply Filed) → Good r → Good (report_answered r res)
answered-Good r (answer f) h = elim (Bool-cases r.inflight) [ inl e ↦ rw e h | inr e ↦ rw e h ]
answered-Good r failure h = elim (Bool-cases r.inflight) [ inl e ↦ rw e h | inr e ↦ rw e h ]

report_step-Good : (r : Report) (e : ReportEvent) → Good r → Good (report_step r e)
report_step-Good r click h =
    click-Good r.report_disabled r.inflight r.cooldown r.toast r.now r.posts r.opened h
report_step-Good r passes h =
    passes-Good r.report_disabled r.inflight r.cooldown r.toast r.now r.posts r.opened h
report_step-Good r (answered res) h = answered-Good r res h

report_run-Good : (r : Report) (es : List ReportEvent) → Good r → Good (report_run r es)
report_run-Good r [] h = h
report_run-Good r (e ∷ es) h = report_run-Good (report_step r e) es (report_step-Good r e h)

-- From a component just shown, after any sequence of clicks, answers and milliseconds, two reports that
-- it posted one after the other are at least 60,000 milliseconds apart.
pub report_run-Spaced : (now : ℕ) (es : List ReportEvent) → Spaced (report_run (shown now) es).posts
report_run-Spaced now es = (report_run-Good (shown now) es (tt, tt)).1
