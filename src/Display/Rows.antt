-- ===== src/Display/Rows.antt =====
-- A page whose values stand in rows of boxes, at one pixel: which box it is in, and what drawing one
-- box does to its color.
use golfer.Prelude.{
  ℕ, ◌+◌, ◌*◌, ◌≤◌, ◌<◌, ◌≡◌, refl, sym, ap, ◌∙◌, Bool, true, false, List, [], ◌∷◌, ◌++◌, All,
  length, arith, if◌then◌else◌, Bool-cases, inl, inr, ◌==◌, ==_iff, ◌⊎◌,
}
use golfer.Display.Target.{
  Color, black, Draw, fill_solid, draw_text, Ink, inked, inside, paint, Bounded, glyph_width,
  glyph_height,
}
use golfer.Display.Pixels.{inked-outside, paint-append}

pub record Layout (F : Type 0) : Type 1 where
  pub row : F → ℕ
  pub left : ℕ
  pub width : ℕ
  pub height : ℕ
  pub boxes : List F
  pub complete : (P : F → Type 0) → All P boxes → (f : F) → P f
  pub of_row : ℕ → F
  pub of_row_lem : (f : F) → of_row (row f) ≡ f
  pub apart :
      (f g : F) (py : ℕ)
      → row f ≤ py
      → py < row f + height
      → row g ≤ py
      → py < row g + height
      → row f ≡ row g
  pub high : glyph_height ≤ height

module _ {F : Type 0} (layout : Layout F) (ink : Ink) (bounded : Bounded ink) (px py : ℕ) where
  abbrev pub hit : F → Bool
  hit f = inside layout.left (layout.row f) layout.width layout.height px py

  -- What is at the pixel.
  pub data Place : Type 0 where
    outside : ((f : F) → hit f ≡ false) → Place
    within_box : (g : F) → hit g ≡ true → Place

  scan : (fs : List F) → Place ⊎ All (λ f. hit f ≡ false) fs
  scan [] = inr tt
  scan (f ∷ fs) = elim (Bool-cases (hit f)) [
    | inl e ↦ inl (within_box f e)
    | inr e ↦ elim (scan fs) [ inl p ↦ inl p | inr all ↦ inr (e, all) ]
  ]

  pub place : Place
  place = elim (scan layout.boxes) [ inl p ↦ p | inr all ↦ outside (layout.complete _ all) ]

  -- The color of the pixel, from those of the boxes and that of the rest.
  abbrev pub shown : Place → (F → Color) → Color → Color
  shown (outside miss) colors base = base
  shown (within_box g e) colors base = colors g

  abbrev pub put : F → Color → (F → Color) → F → Color
  put f color colors g = if layout.row g == layout.row f then color else colors g

  abbrev pub boxed : F → List ℕ → Color → Color
  boxed f text color = if inked ink text layout.left (layout.row f) px py then color else black

  abbrev pub draw_box : F → List ℕ → Color → List Draw
  draw_box f text color =
      fill_solid layout.left (layout.row f) layout.width layout.height black
      ∷ draw_text text layout.left (layout.row f) color
      ∷ []

  hit-miss : (f g : F) → hit f ≡ false → hit g ≡ true → (layout.row g == layout.row f) ≡ false
  hit-miss f g miss e = ground arith

  hit-hit : (f g : F) → hit f ≡ true → hit g ≡ true → (layout.row g == layout.row f) ≡ true
  hit-hit f g e' e = ground (arith, layout.apart f g py)

  box-missed :
      (f : F) (text : List ℕ) (color c : Color)
      → glyph_width * length text ≤ layout.width
      → hit f ≡ false
      → paint ink px py (draw_box f text color) c ≡ c
  unfolding paint
  box-missed f text color c fits miss = rw (
    miss,
    inked-outside ink px py bounded text layout.left (layout.row f) layout.width layout.height fits
        layout.high miss,
  )

  box-hit :
      (f : F) (text : List ℕ) (color c : Color)
      → hit f ≡ true
      → paint ink px py (draw_box f text color) c ≡ boxed f text color
  unfolding paint
  box-hit f text color c e = rw e

  pub paint-draw_box :
      (p : Place) (f : F) (text : List ℕ) (color : Color) (colors : F → Color) (base : Color)
      → glyph_width * length text ≤ layout.width
      → paint ink px py (draw_box f text color) (shown p colors base)
        ≡ shown p (put f (boxed f text color) colors) base
  paint-draw_box (outside miss) f text color colors base fits =
      box-missed f text color base fits (miss f)
  paint-draw_box (within_box g e) f text color colors base fits = elim (Bool-cases (hit f)) [
    | inl e' ↦ box-hit f text color (colors g) e' ∙ rw (hit-hit f g e' e)
    | inr miss ↦ box-missed f text color (colors g) fits miss ∙ rw (hit-miss f g miss e)
  ]

  pub box-then :
      (p : Place) (f : F) (text : List ℕ) (color : Color) (rest : List Draw) (colors : F → Color)
      (base : Color)
      → glyph_width * length text ≤ layout.width
      → paint ink px py (draw_box f text color ++ rest) (shown p colors base)
        ≡ paint ink px py rest (shown p (put f (boxed f text color) colors) base)
  box-then p f text color rest colors base fits =
      paint-append ink px py (draw_box f text color) rest (shown p colors base)
      ∙ ap (paint ink px py rest) (paint-draw_box p f text color colors base fits)

  same_row :
      (f g : F) (colors : F → Color) → (layout.row g == layout.row f) ≡ true → colors g ≡ colors f
  same_row f g colors e = ap colors (
      sym (layout.of_row_lem g)
      ∙ ap layout.of_row ((==_iff (layout.row g) (layout.row f)).0 e)
      ∙ layout.of_row_lem f)

  put-same :
      (f g : F) (color : Color) (colors : F → Color)
      → colors f ≡ color
      → put f color colors g ≡ colors g
  put-same f g color colors e = elim (Bool-cases (layout.row g == layout.row f)) [
    | inl same ↦ rw same (sym (same_row f g colors same ∙ e))
    | inr other ↦ rw other
  ]

  -- A box that already has the color.
  pub shown-put :
      (p : Place) (f : F) (color : Color) (colors : F → Color) (base : Color)
      → colors f ≡ color
      → shown p colors base ≡ shown p (put f color colors) base
  shown-put (outside miss) f color colors base e = refl
  shown-put (within_box g h) f color colors base e = sym (put-same f g color colors e)

  pub shown_cong :
      (p : Place) (colors colors' : F → Color) (base : Color)
      → ((f : F) → colors f ≡ colors' f)
      → shown p colors base ≡ shown p colors' base
  shown_cong (outside miss) colors colors' base h = refl
  shown_cong (within_box g e) colors colors' base h = h g

  -- Before any box is drawn, its color is that of the rest.
  pub shown_const : (p : Place) (base : Color) → shown p (λ f. base) base ≡ base
  shown_const (outside miss) base = refl
  shown_const (within_box g e) base = refl

  -- A pixel in a box has the color of the box.
  pub shown-hit :
      (p : Place) (f : F) (colors : F → Color) (base : Color)
      → hit f ≡ true
      → shown p colors base ≡ colors f
  shown-hit (outside miss) f colors base h = absurd (cc (miss f, h))
  shown-hit (within_box g e) f colors base h = same_row f g colors (hit-hit f g h e)
