-- ===== src/Map/Image.antt =====
-- When the image that `get_svg_map` keeps is that of the data.
use client_py.Prelude.{
  ◌≡◌, refl, sym, ap, subst, ◌∙◌, map_error, String, Bool, true, false, ◌||◌, Option, none, some,
  List, ℤ, Result, ok, err, str_eq, arith, int_keys, if◌then◌else◌,
}
use client_py.Value.{Value}
use client_py.Models.{MapSetType}
use client_py.Events.{MapInfo, Position}
use client_py.EventBus.State.{EventBus}
use client_py.Map.Data.{
  Subset, Drawing, MapState, reset_changed, update_positions, set_map_info, update_map_piece,
  generate_svg,
}
use client_py.Map.Handlers.{
  on_map_set, on_map_subset, rooms_on_map_set, rooms_on_map_subset, on_cached_info, on_map_trace,
  on_major_map,
}
use client_py.Map.Wiring.{init, kept_image, get_svg_map}
use client_py.Map.Current.{
  IsQuiet, IsCurrent, on_change-IsCurrent, on_map_set-IsCurrent, on_map_subset-IsCurrent,
  rooms_on_map_set-IsCurrent, rooms_on_map_subset-IsCurrent, with_drawing-IsCurrent,
  update_map_piece-IsCurrent, on_cached_info-IsCurrent, on_map_trace-IsCurrent,
}

module _ {D : Type 0} (rust : Drawing D) where
  -- The callbacks of the events, a call of `get_svg_map` that returns, and what changes the bus only. A
  -- major map is one that leaves the image of the data: no piece that was drawn is marked as unused.
  pub data Step : MapState D → MapState D → Type 0 where
    set_event : (type : MapSetType) (ids : List ℤ) (s : MapState D) → Step s (on_map_set type ids s)
    subset_event : (subset : Subset) (s : MapState D) → Step s (on_map_subset subset s)
    rooms_set_event :
        (type : MapSetType) (ids : List ℤ) (map_id : Value) (s : MapState D)
        → Step s (rooms_on_map_set type ids map_id s)
    rooms_subset_event : (subset : Subset) (s : MapState D) → Step s (rooms_on_map_subset subset s)
    info_event : (info : Value) (s : MapState D) → Step s (set_map_info rust info s).1
    minor_event :
        (index piece : Value) (s : MapState D) → Step s (update_map_piece rust index piece s).1
    cached_event : (maps : List MapInfo) (s : MapState D) → Step s (on_cached_info maps s)
    position_event :
        (positions : List Position) (s : MapState D) → Step s (update_positions positions s)
    trace_event :
        (start : ℤ) (points : Value) (s : MapState D) → Step s (on_map_trace rust start points s).1
    image_asked :
        (image : Option String) (s : MapState D)
        → (get_svg_map rust s).0 ≡ ok image
        → Step s (get_svg_map rust s).1
    major_event :
        (values : List ℤ) (requested : Bool) (s : MapState D)
        → generate_svg rust (on_major_map rust values requested s).1.map_data
          ≡ generate_svg rust s.map_data
        → Step s (on_major_map rust values requested s).1
    bus_changed : (b : EventBus) (s : MapState D) → Step s (record s { bus = b })

  pub data Run (drawing : D) (b : EventBus) : MapState D → Type 0 where
    here : Run drawing b (init drawing b)
    next : {s t : MapState D} → Run drawing b s → Step s t → Run drawing b t

  -- What is kept is the image of the data.
  kept_image-generate_svg :
      (s : MapState D) (image : String)
      → IsCurrent rust s
      → kept_image s ≡ some image
      → generate_svg rust s.map_data ≡ ok (some image)
  kept_image-generate_svg s image c h =
      elim s.last_image
          as (λ o.
            ((i : String)
              → s.map_data.changed ≡ false
              → o ≡ some i
              → generate_svg rust s.map_data ≡ ok (some i))
            → elim o as (λ _. Option String) [
              | none ↦ none
              | some i ↦ if str_eq i "" || s.map_data.changed then none else some i
            ]
              ≡ some image
            → generate_svg rust s.map_data ≡ ok (some image)) [
              | none ↦ λ c h. ground arith
              | some i ↦ λ c h. c image (ground arith) (ground arith)
            ]
        c h

  -- What a drawing comes to.
  abbrev drawn : MapState D → Result (Option String) → Result (Option String) × MapState D
  drawn s r =
      let s1 = record s { map_data = reset_changed s.map_data } in
      elim r [ err e ↦ (err e, s1) | ok image ↦ (ok image, record s1 { last_image = image }) ]

  -- What `get_svg_map` comes to, by whether the map is enabled and what is kept.
  abbrev asked : MapState D → Bool → Option String → Result (Option String) × MapState D
  asked s enabled kept =
      if enabled
      then elim kept [
        | some i ↦ (ok (some i), s)
        | none ↦ drawn s (generate_svg rust (reset_changed s.map_data))
      ]
      else (err map_error, s)

  drawn-result : (s : MapState D) (r : Result (Option String)) → (drawn s r).0 ≡ r
  drawn-result s (err e) = refl
  drawn-result s (ok image) = refl

  drawn-IsCurrent :
      (s : MapState D) (image : Option String) (r : Result (Option String))
      → generate_svg rust s.map_data ≡ r
      → (drawn s r).0 ≡ ok image
      → IsCurrent rust (drawn s r).1
  unfolding generate_svg
  drawn-IsCurrent s image (err e) h returned = absurd (ground (arith, returned))
  drawn-IsCurrent s image (ok i) h returned = λ kept unchanged is. h ∙ ap ok is

  get_svg_map-IsCurrent :
      (image : Option String) (s : MapState D)
      → (get_svg_map rust s).0 ≡ ok image
      → IsCurrent rust s
      → IsCurrent rust (get_svg_map rust s).1
  unfolding get_svg_map generate_svg
  get_svg_map-IsCurrent image s returned c =
      elim s.enabled
          as (λ e.
            (asked s e (kept_image s)).0 ≡ ok image → IsCurrent rust (asked s e (kept_image s)).1) [
              | true ↦
                  elim (kept_image s)
                    as (λ o. (asked s true o).0 ≡ ok image → IsCurrent rust (asked s true o).1) [
                      | none ↦ λ h. drawn-IsCurrent s image (generate_svg rust s.map_data) refl h
                      | some kept ↦ λ h. c
                    ]
              | false ↦ λ h. c
            ]
        returned

  Step-IsCurrent :
      {s t : MapState D} → Step s t → IsQuiet rust → IsCurrent rust s → IsCurrent rust t
  unfolding set_map_info update_positions generate_svg on_major_map
  Step-IsCurrent (set_event type ids s) q c = on_map_set-IsCurrent rust type ids s c
  Step-IsCurrent (subset_event subset s) q c = on_map_subset-IsCurrent rust subset s c
  Step-IsCurrent (rooms_set_event type ids map_id s) q c =
      rooms_on_map_set-IsCurrent rust type ids map_id s c
  Step-IsCurrent (rooms_subset_event subset s) q c = rooms_on_map_subset-IsCurrent rust subset s c
  Step-IsCurrent (info_event info s) q c =
      with_drawing-IsCurrent rust (rust.set_map_info info s.map_data.drawing) s c
  Step-IsCurrent (minor_event index piece s) q c = update_map_piece-IsCurrent rust index piece s q c
  Step-IsCurrent (cached_event maps s) q c = on_cached_info-IsCurrent rust maps s c
  Step-IsCurrent (position_event positions s) q c =
      on_change-IsCurrent rust (record s { map_data = record s.map_data { positions = positions } })
  Step-IsCurrent (trace_event start points s) q c = on_map_trace-IsCurrent rust start points s c
  Step-IsCurrent (image_asked image s h) q c = get_svg_map-IsCurrent image s h c
  Step-IsCurrent (major_event values requested s h) q c =
      λ image unchanged kept. h ∙ c image unchanged kept
  Step-IsCurrent (bus_changed b s) q c = c

  Run-IsCurrent :
      (drawing : D) (b : EventBus) (s : MapState D)
      → Run drawing b s
      → IsQuiet rust
      → IsCurrent rust s
  unfolding init
  Run-IsCurrent drawing b _ here q = λ image unchanged kept. ground arith
  Run-IsCurrent drawing b _ (next r st) q = Step-IsCurrent st q (Run-IsCurrent drawing b _ r q)

  -- In every run in which each call of get_svg_map returned and each major map left the image of the
  -- data, get_svg_map returns or raises what a drawing of the data does now, also where it returns the
  -- image that it kept; a map piece that is not updated is taken to leave the drawing as it was.
  pub get_svg_map_current :
      (drawing : D) (b : EventBus) (s : MapState D)
      → Run drawing b s
      → IsQuiet rust
      → s.enabled ≡ true
      → (get_svg_map rust s).0 ≡ generate_svg rust s.map_data
  unfolding get_svg_map generate_svg
  get_svg_map_current drawing b s r q enabled =
      let c = Run-IsCurrent drawing b s r q in
      subst (λ e. (asked s e (kept_image s)).0 ≡ generate_svg rust s.map_data) (sym enabled)
        (elim (kept_image s)
            as (λ o. kept_image s ≡ o → (asked s true o).0 ≡ generate_svg rust s.map_data) [
              | none ↦ λ h. drawn-result s (generate_svg rust s.map_data)
              | some image ↦ λ h. sym (kept_image-generate_svg s image c h)
            ]
          refl)
