-- ===== src/Inject/Activity/Bounds.antt =====
-- What the parser (activity.rs) says of a record's size, and when it gives an event.
use Prim.Native.String.{String}
use perf_weave.Base.{
  ℕ, ◌+◌, ◌≤◌, ◌<◌, ◌≡◌, refl, ◌⊎◌, inl, inr, ◌||◌, Option, none, some, arith, ltb, ◌==◌,
  if◌then◌else◌, max, min, Bool-cases, lt→ltb, ge→ltb_false, ge→ltb_false,
}
use native.Mathlib.Decide.{dec_lt}
use perf_weave.Proto.{Event, Category, category_num}
use perf_weave.Inject.Activity.{
  View, parse_record, header_size, kernel7_size, memcpy6_size, memset4_size, api_size, kernel_event,
  memcpy_event, memset_event, api_event,
}

-- A kind of record that the parser knows: its size, the category of its events, and its time span.
pub record Shape : Type 0 where
  pub size : ℕ
  pub category : Category
  pub start : ℕ
  pub end_ns : ℕ

abbrev pub kernel_shape : View → Shape
kernel_shape v = record {
  size = kernel7_size;
  category = Category.kernel;
  start = v.kernel7.start;
  end_ns = v.kernel7.end_ns;
}

abbrev pub memcpy_shape : View → Shape
memcpy_shape v = record {
  size = memcpy6_size;
  category = Category.memcpy;
  start = v.memcpy6.start;
  end_ns = v.memcpy6.end_ns;
}

abbrev pub memset_shape : View → Shape
memset_shape v = record {
  size = memset4_size;
  category = Category.memset;
  start = v.memset4.start;
  end_ns = v.memset4.end_ns;
}

abbrev pub api_shape : View → Shape
api_shape v = record {
  size = api_size;
  category = Category.api_call;
  start = v.api.start;
  end_ns = v.api.end_ns;
}

-- The shape that the number of a kind stands for, by the numbers of cupti_activity.h.
abbrev pub shape_of : View → ℕ → Option Shape
shape_of v k =
    if (k == 3) || (k == 12)
    then some (kernel_shape v)
    else if (k == 1) || (k == 22)
    then some (memcpy_shape v)
    else if k == 2
    then some (memset_shape v)
    else if (k == 5) || (k == 4)
    then some (api_shape v)
    else none

-- An event of a shape: of its category, from its start, and until its end if that is not earlier.
abbrev pub Describes : Shape → Event → Type 0
Describes s e =
    (e.category ≡ category_num s.category)
    × (e.ts_ns ≡ s.start)
    × (e.ts_ns + e.duration_ns ≡ max s.start s.end_ns)

-- The outcome for a record, of a known shape or not.
abbrev pub Parsed : ℕ → ℕ × Option Event → Option Shape → Type 0
Parsed remaining (size, e) none = (size ≡ min remaining header_size) × (e ≡ none)
Parsed remaining (size, e) (some s) =
    ((remaining < s.size) × (size ≡ remaining) × (e ≡ none))
    ⊎ ((s.size ≤ remaining)
        × (size ≡ s.size)
        × ((event : Event) × (e ≡ some event) × Describes s event))

-- A test of the size before a record of a known shape is read.
whole-Parsed :
    (remaining : ℕ) (s : Shape) (e : Event)
    → Describes s e
    → header_size ≤ s.size
    → Parsed remaining
        (if ltb remaining header_size
          then (remaining, none)
          else if ltb remaining s.size
          then (remaining, none)
          else (s.size, some e))
        (some s)
whole-Parsed remaining s e d h = elim (dec_lt remaining s.size) [
  | yes short ↦ elim (Bool-cases (ltb remaining header_size)) [
    | inl tiny ↦ rw tiny (inl (short, refl, refl))
    | inr some_bytes ↦ rw (some_bytes, lt→ltb remaining s.size short) (inl (short, refl, refl))
  ]
  | no long ↦
      rw
        (
          ge→ltb_false remaining header_size (omega arith),
          ge→ltb_false remaining s.size (omega arith),
        )
        (inr (omega arith, refl, (e, refl, d)))
]

module _ (hash : String → ℕ) where
  -- The parser never claims more bytes than there are, and at least a header's worth if there is one.
  pub parse_record-bounds :
      (v : View) (remaining : ℕ)
      → let size = (parse_record hash v remaining).0 in
        (size ≤ remaining) × (min remaining header_size ≤ size)
  unfolding parse_record
  parse_record-bounds v remaining = ground arith

  -- A record of a known kind gives an event exactly if it lies in the buffer as a whole; then its size
  -- is that of its structure, and the event has its category and its time span. A record that is cut
  -- off takes all the bytes that remain, and one of another kind the bytes of its header.
  pub parse_record_lem :
      (v : View) (remaining : ℕ)
      → Parsed remaining (parse_record hash v remaining) (shape_of v v.header.kind)
  unfolding parse_record
  parse_record_lem v remaining =
      let k = v.header.kind in
      elim (Bool-cases ((k == 3) || (k == 12))) [
        | inl kernel ↦ rw kernel (
            whole-Parsed remaining (kernel_shape v) (kernel_event hash v.kernel7)
              (refl, refl, omega arith) (omega arith))
        | inr n1 ↦ elim (Bool-cases ((k == 1) || (k == 22))) [
          | inl copy ↦
              rw (n1, copy)
                (whole-Parsed remaining (memcpy_shape v) (memcpy_event hash v.memcpy6)
                  (refl, refl, omega arith) (omega arith))
          | inr n2 ↦ elim (Bool-cases (k == 2)) [
            | inl fill ↦
                rw (n1, n2, fill)
                  (whole-Parsed remaining (memset_shape v) (memset_event hash v.memset4)
                    (refl, refl, omega arith) (omega arith))
            | inr n3 ↦ elim (Bool-cases ((k == 5) || (k == 4))) [
              | inl call ↦
                  rw (n1, n2, n3, call)
                    (whole-Parsed remaining (api_shape v) (api_event hash v.api)
                      (refl, refl, omega arith) (omega arith))
              | inr n4 ↦ rw (n1, n2, n3, n4) (ground arith)
            ]
          ]
        ]
      ]
