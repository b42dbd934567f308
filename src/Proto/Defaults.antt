-- ===== src/Proto/Defaults.antt =====
-- Getters of the protobuf enumerations with the documented behaviour: what is assumed of them can hold.
use perf_weave.Base.{ℕ, ◌≡◌, refl, ◌==◌, if◌then◌else◌}
use perf_weave.Proto
use perf_weave.Proto.{Category, MemcpyKind, Bound, Confidence, Source, Getters}

-- The getters of a protobuf enumeration whose default is its first value.
abbrev category_of : ℕ → Category
category_of n =
    if n == 1
    then Category.metric
    else if n == 2
    then Category.api_call
    else if n == 3
    then Category.kernel
    else if n == 4
    then Category.memcpy
    else if n == 5
    then Category.memset
    else if n == 6
    then Category.sync
    else if n == 7
    then Category.overhead
    else if n == 8
    then Category.marker
    else if n == 9
    then Category.sol
    else Category.unspecified

pub category_of-num : (c : Category) → category_of (Proto.category_num c) ≡ c
category_of-num Category.unspecified = refl
category_of-num Category.metric = refl
category_of-num Category.api_call = refl
category_of-num Category.kernel = refl
category_of-num Category.memcpy = refl
category_of-num Category.memset = refl
category_of-num Category.sync = refl
category_of-num Category.overhead = refl
category_of-num Category.marker = refl
category_of-num Category.sol = refl

abbrev kind_of : ℕ → MemcpyKind
kind_of n =
    if n == 1
    then MemcpyKind.h2d
    else if n == 2
    then MemcpyKind.d2h
    else if n == 3
    then MemcpyKind.d2d
    else if n == 4
    then MemcpyKind.h2h
    else if n == 5
    then MemcpyKind.p2p
    else MemcpyKind.unknown

pub kind_of-num : (k : MemcpyKind) → kind_of (Proto.kind_num k) ≡ k
kind_of-num MemcpyKind.unknown = refl
kind_of-num MemcpyKind.h2d = refl
kind_of-num MemcpyKind.d2h = refl
kind_of-num MemcpyKind.d2d = refl
kind_of-num MemcpyKind.h2h = refl
kind_of-num MemcpyKind.p2p = refl

abbrev bound_of : ℕ → Bound
bound_of n =
    if n == 1
    then Bound.memory
    else if n == 2
    then Bound.compute
    else if n == 3
    then Bound.latency
    else if n == 4
    then Bound.balanced
    else Bound.bound_unknown

pub bound_of-num : (b : Bound) → bound_of (Proto.bound_num b) ≡ b
bound_of-num Bound.bound_unknown = refl
bound_of-num Bound.memory = refl
bound_of-num Bound.compute = refl
bound_of-num Bound.latency = refl
bound_of-num Bound.balanced = refl

abbrev confidence_of : ℕ → Confidence
confidence_of n =
    if n == 1 then Confidence.low else if n == 2 then Confidence.high else Confidence.conf_unknown

pub confidence_of-num : (c : Confidence) → confidence_of (Proto.confidence_num c) ≡ c
confidence_of-num Confidence.conf_unknown = refl
confidence_of-num Confidence.low = refl
confidence_of-num Confidence.high = refl

abbrev source_of : ℕ → Source
source_of n =
    if n == 1 then Source.host_sampling else if n == 2 then Source.replay else Source.src_unknown

pub source_of-num : (s : Source) → source_of (Proto.source_num s) ≡ s
source_of-num Source.src_unknown = refl
source_of-num Source.host_sampling = refl
source_of-num Source.replay = refl

abbrev pub getters : Getters
getters = record {
  category = category_of;
  kind = kind_of;
  bound = bound_of;
  confidence = confidence_of;
  source = source_of;
  category_known = λ c. category_of-num c;
  kind_known = λ k. kind_of-num k;
  bound_known = λ b. bound_of-num b;
  confidence_known = λ c. confidence_of-num c;
  source_known = λ s. source_of-num s;
}
