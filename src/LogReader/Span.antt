-- ===== src/LogReader/Span.antt =====
-- The fields of the reader of packages/backend/src/lib/log-reader.ts over one request.
use vpp_blockchain.Base.{
  ℕ, zero, suc, ◌+◌, ◌-◌, ◌/◌, ◌%◌, ◌≤◌, ◌<◌, ◌≡◌, refl, min, max, Bool, true, false, ◌||◌, List,
  arith, inl, inr, Bool-cases,
}
use vpp_blockchain.Base.Exec.{Result, ok, throw, Result-cases}
use vpp_blockchain.Errors.{ErrorValue, nothing}
use vpp_blockchain.Errors.Range.{is_range_rejection}
use vpp_blockchain.LogReader.{
  Options, Reader, Network, ReadError, range_rejected, superseded, Run, make_reader, record_success,
  shrink, ask, read_once,
}

pub record Valid (r : Reader) : Type 0 where
  pub positive : 1 ≤ r.span
  pub bounded : r.span ≤ max 1 r.options.max_span
  pub sources : 1 ≤ r.source_count
  pub preferred : r.preferred < r.source_count

-- A reader that the constructor accepts is valid.
pub make_reader-Valid : (n : ℕ) (o : Options) (r : Reader) → make_reader n o ≡ ok r → Valid r
unfolding make_reader
make_reader-Valid n o r e = ground arith

-- The parts that a request never changes.
pub record Same (r q : Reader) : Type 0 where
  pub count : q.source_count ≡ r.source_count
  pub options : q.options ≡ r.options

pub record_success-Valid :
    (n : ℕ) (r : Reader) → Valid r → Valid (record_success n r) × Same r (record_success n r)
unfolding record_success
record_success-Valid n r v = ground arith

pub shrink-Valid : (n : ℕ) (r : Reader) → Valid r → Valid (shrink n r) × Same r (shrink n r)
unfolding shrink
shrink-Valid n r v = ground arith

-- What a failed request says about the span.
abbrev pub Shrunk : {T : Type 0} → ℕ → Reader → Reader → Result ReadError (List T) → Type 0
Shrunk n r q (throw (range_rejected e)) = q.span ≡ max 1 (min r.span (n / 2))
Shrunk n r q _ = Unit {0}

pub record Asked {T : Type 0} (n : ℕ) (r : Reader) (out : Result ReadError (List T) × Run)
    : Type 0 where
  pub valid : Valid out.1.reader
  pub same : Same r out.1.reader
  pub shrunk : Shrunk n r out.1.reader out.0

preferred-Valid :
    (r : Reader) (i : ℕ) → Valid r → Valid (record r { preferred = i % r.source_count })
preferred-Valid r i v = record {
  positive = v.positive;
  bounded = v.bounded;
  sources = v.sources;
  preferred = grind (arith, v.sources);
}

answered-Asked :
    {T : Type 0} (n i : ℕ) (s : Run) (results : List T) (k : ℕ)
    → Valid s.reader
    → Asked n s.reader (
      ok results,
      record s {
        requests = k;
        reader = record_success n (record s.reader { preferred = i % s.reader.source_count });
      },
    )
answered-Asked n i s results k v =
    let (w, same) = record_success-Valid n _ (preferred-Valid s.reader i v) in
    record { valid = w; same = record { count = same.count; options = same.options }; shrunk = tt }

module _ {T : Type 0} (net : Network T) where
  -- One round of the loop of `readOnce`, by what the source did.
  pub ask_cases {κ} :
      (P : Result ReadError (List T) × Run → Type κ) (left attempt a b : ℕ) (last : ErrorValue)
      (refused : Bool) (s : Run)
      → (net.should_stop s.requests ≡ true → P (throw superseded, s))
      → ((results : List T)
          → net.query s.requests ((s.reader.preferred + attempt) % s.reader.source_count) a b
            ≡ ok results
          → P (
            ok results,
            record {
              requests = s.requests + 1;
              reader = record_success (b - a + 1) (record s.reader {
                preferred = (s.reader.preferred + attempt) % s.reader.source_count;
              });
            },
          ))
      → ((err : ErrorValue)
          → net.query s.requests ((s.reader.preferred + attempt) % s.reader.source_count) a b
            ≡ throw err
          → P (
              ask net left
                (attempt + 1)
                a
                b
                err
                (is_range_rejection err || refused)
                (record s { requests = s.requests + 1 })))
      → P (ask net (suc left) attempt a b last refused s)
  unfolding ask
  ask_cases P left attempt a b last refused s stopped answered refused_by =
      elim (Bool-cases (net.should_stop s.requests)) [
        | inl t ↦ rw (t, ask) (stopped t)
        | inr t ↦
            elim (Result-cases
              (net.query s.requests ((s.reader.preferred + attempt) % s.reader.source_count) a b)) [
                | inl (results, q) ↦ rw (t, q, ask) (answered results q)
                | inr (err, q) ↦ rw (t, q, ask) (refused_by err q)
              ]
      ]

  ask-Asked :
      (left attempt a b : ℕ) (last : ErrorValue) (refused : Bool) (s : Run)
      → Valid s.reader
      → Asked (b - a + 1) s.reader (ask net left attempt a b last refused s)
  unfolding ask
  ask-Asked zero attempt a b last true s v = record {
    valid = (shrink-Valid _ s.reader v).0;
    same = (shrink-Valid _ s.reader v).1;
    shrunk = unfold shrink in refl;
  }
  ask-Asked zero attempt a b last false s v = record {
    valid = v;
    same = record { count = refl; options = refl };
    shrunk = tt;
  }
  ask-Asked (suc left) attempt a b last refused s v =
      ask_cases (Asked (b - a + 1) s.reader) left attempt a b last refused s
        (λ _. record { valid = v; same = record { count = refl; options = refl }; shrunk = tt })
        (λ results _. answered-Asked _ (s.reader.preferred + attempt) s results (s.requests + 1) v)
        (λ err _.
          ask-Asked left (attempt + 1) a b err (is_range_rejection err || refused)
            (record s { requests = s.requests + 1 }) v)

  -- A request leaves a valid reader valid, with the same sources and options; if it ends with the
  -- range refused, the span is the smaller of the one before and half the range, and at least 1.
  pub read_once-Asked :
      (a b : ℕ) (s : Run) → Valid s.reader → Asked (b - a + 1) s.reader (read_once net a b s)
  unfolding read_once
  read_once-Asked a b s v = ask-Asked s.reader.source_count 0 a b nothing false s v
