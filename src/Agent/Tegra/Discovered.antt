-- ===== src/Agent/Tegra/Discovered.antt =====
-- The paths that the sampler finds.
use perf_weave.Base.{
  ℕ, ◌≡◌, refl, sym, inl, inr, Bool, true, false, ◌||◌, not, Bool-cases, Option, none, some, List,
  [], ◌∷◌, ◌++◌, All, All-append, if◌then◌else◌,
}
use perf_weave.Base.Text.{Text, codes, trim}
use perf_weave.Base.Text.Decimal.{to_string}
use perf_weave.Base.Text.Parts.{concat}
use perf_weave.Base.Text.Lines.{to_ascii_lowercase}
use perf_weave.Agent.Tegra.{
  DirEntry, Fs, path_join, devfreq_gpu_candidates, when_exists, or_else, gpu_nodes, is_interesting,
  is_zone, zone_of, thermal_zones, rails_of, rail_label, channels, monitor_rails, device_rails,
  entries, discover_paths,
}

module _ (fs : Fs) where
  abbrev pub Exists : Text → Type 0
  Exists p = fs.exists p ≡ true

  abbrev pub IfSome : Option Text → Type 0
  IfSome none = Unit
  IfSome (some p) = Exists p

  when_exists-IfSome : (p : Text) → IfSome (when_exists fs p)
  when_exists-IfSome p = elim (Bool-cases (fs.exists p)) [ inl e ↦ rw e e | inr e ↦ rw e tt ]

  or_else-IfSome : (a b : Option Text) → IfSome a → IfSome b → IfSome (or_else fs a b)
  or_else-IfSome none b ha hb = hb
  or_else-IfSome (some p) b ha hb = ha

  gpu_nodes-IfSome :
      (roots : List Text) → IfSome (gpu_nodes fs roots).0 × IfSome (gpu_nodes fs roots).1
  unfolding gpu_nodes
  gpu_nodes-IfSome [] = (tt, tt)
  gpu_nodes-IfSome (root ∷ roots) = elim (Bool-cases (fs.exists root)) [
    | inl e ↦ rw e (
      when_exists-IfSome _,
      or_else-IfSome _ _ (when_exists-IfSome (path_join (path_join root "device") "load"))
          (when_exists-IfSome (path_join root "load")),
    )
    | inr e ↦ rw e (gpu_nodes-IfSome roots)
  ]

  abbrev pub ZoneExists : Option (Text × Text) → Type 0
  ZoneExists none = Unit
  ZoneExists (some z) = Exists z.1

  kept_zone : (b : Bool) (z : Text × Text) → Exists z.1 → ZoneExists (if b then some z else none)
  kept_zone true z h = h
  kept_zone false z h = tt

  zone_lem :
      (skip missing found : Bool) (type_text : Option Text) (temp_path : Text)
      → found ≡ fs.exists temp_path
      → ZoneExists (
          if skip then none else if missing || not found then none else elim type_text [
            | none ↦ none
            | some raw ↦
                let t = trim raw in
                if is_interesting fs (to_ascii_lowercase t) then some (t, temp_path) else none
          ])
  zone_lem true missing found o temp h = tt
  zone_lem false true found o temp h = tt
  zone_lem false false false o temp h = tt
  zone_lem false false true none temp h = tt
  zone_lem false false true (some raw) temp h =
      kept_zone (is_interesting fs (to_ascii_lowercase (trim raw))) (trim raw, temp) (sym h)

  zone_of-ZoneExists : (e : DirEntry) → ZoneExists (zone_of fs e)
  unfolding zone_of
  zone_of-ZoneExists e =
      zone_lem (not (is_zone fs e.file_name)) (not (fs.exists (path_join e.path "type")))
        (fs.exists (path_join e.path "temp")) (fs.read_to_string (path_join e.path "type"))
        (path_join e.path "temp") refl

  abbrev pub SecondExists : Text × Text → Type 0
  SecondExists z = Exists z.1

  cons_zone :
      (o : Option (Text × Text)) (zs : List (Text × Text))
      → ZoneExists o
      → All SecondExists zs
      → All SecondExists (elim o [ none ↦ zs | some z ↦ z ∷ zs ])
  cons_zone none zs h rest = rest
  cons_zone (some z) zs h rest = (h, rest)

  cons_rail :
      (b : Bool) (label val : Text) (zs : List (Text × Text))
      → b ≡ fs.exists val
      → All SecondExists zs
      → All SecondExists (if b then (label, val) ∷ zs else zs)
  cons_rail true label val zs h rest = (sym h, rest)
  cons_rail false label val zs h rest = rest

  thermal_zones-All : (es : List DirEntry) → All SecondExists (thermal_zones fs es)
  unfolding thermal_zones
  thermal_zones-All [] = tt
  thermal_zones-All (e ∷ es) =
      cons_zone (zone_of fs e) (thermal_zones fs es) (zone_of-ZoneExists e) (thermal_zones-All es)

  rails_of-All : (hwp : Text) (ids : List ℕ) → All SecondExists (rails_of fs hwp ids)
  unfolding rails_of
  rails_of-All hwp [] = tt
  rails_of-All hwp (idx ∷ more) =
      let val = concat (hwp ∷ codes "/in_power" ∷ to_string idx ∷ codes "_input" ∷ []) in
      let lab = concat (hwp ∷ codes "/in_label" ∷ to_string idx ∷ []) in
      cons_rail (fs.exists val) (rail_label fs idx (fs.read_to_string lab)) val
        (rails_of fs hwp more) refl (rails_of-All hwp more)

  monitor_rails-All : (hws : List DirEntry) → All SecondExists (monitor_rails fs hws)
  unfolding monitor_rails
  monitor_rails-All [] = tt
  monitor_rails-All (hw ∷ hws) =
      All-append SecondExists (rails_of fs hw.path (channels fs)) (monitor_rails fs hws)
        (rails_of-All hw.path (channels fs)) (monitor_rails-All hws)

  cons_device :
      (o : Option (List DirEntry)) (zs : List (Text × Text))
      → All SecondExists zs
      → All SecondExists (elim o [ none ↦ zs | some hws ↦ monitor_rails fs hws ++ zs ])
  cons_device none zs h = h
  cons_device (some hws) zs h =
      All-append SecondExists (monitor_rails fs hws) zs (monitor_rails-All hws) h

  device_rails-All : (devs : List DirEntry) → All SecondExists (device_rails fs devs)
  unfolding device_rails
  device_rails-All [] = tt
  device_rails-All (dev ∷ devs) =
      cons_device (fs.read_dir (path_join dev.path "hwmon")) (device_rails fs devs)
        (device_rails-All devs)

  -- Whatever the board, every path that `discover_paths` returns exists.
  pub discover_paths-Exists :
      let found = discover_paths fs in
      IfSome found.gpu_clock
      × IfSome found.gpu_load
      × All SecondExists found.temp_zones
      × All SecondExists found.power_rails
  unfolding discover_paths
  discover_paths-Exists =
      let gpu = gpu_nodes-IfSome (devfreq_gpu_candidates) in
      (
        gpu.0,
        gpu.1,
        thermal_zones-All (entries fs (fs.read_dir (codes "/sys/class/thermal"))),
        device_rails-All (entries fs (fs.read_dir (codes "/sys/bus/i2c/drivers/ina3221"))),
      )
