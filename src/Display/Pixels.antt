-- ===== src/Display/Pixels.antt =====
-- What sequences of drawing operations do to one pixel, and that a faithful target does it.
use golfer.Prelude.{
  ℕ, ◌-◌, ◌*◌, ◌≤◌, ◌<◌, ◌≡◌, refl, ap, ◌∙◌, false, some, List, [], ◌∷◌, ◌++◌, All, length, arith,
  ◌>>=◌,
}
use golfer.Display.Target.{
  Color, Draw, clear, fill_solid, draw_text, panicked, DrawTarget, draw_all, Ink, inked, inside,
  paint_one, paint, Bounded, Draws, Faithful, panel_width, panel_height, glyph_width, glyph_height,
}

-- An operation that is not a panic.
abbrev pub Calm : Draw → Type 0
Calm (clear color) = Unit
Calm (fill_solid x y w h color) = Unit
Calm (draw_text text x y color) = Unit
Calm panicked = ⊥

pub All-append : (xs ys : List Draw) → All Calm xs → All Calm ys → All Calm (xs ++ ys)
All-append [] ys hx hy = hy
All-append (x ∷ xs) ys hx hy = (hx.0, All-append xs ys hx.1 hy)

module _ {T : Type 0} (target : DrawTarget T) (ink : Ink) (faithful : Faithful target ink) where
  Calm-Draws : (d : Draw) → Calm d → Draws target ink d
  Calm-Draws (clear color) h = faithful.clears color
  Calm-Draws (fill_solid x y w h color) calm = faithful.fills x y w h color
  Calm-Draws (draw_text text x y color) h = faithful.writes text x y color
  Calm-Draws panicked h = absurd h

  pub draw_all-paint :
      (draws : List Draw)
      → All Calm draws
      → (t : T)
      → (last : T) × (draw_all target draws t ≡ some last)
        × ((px py : ℕ)
            → px < panel_width
            → py < panel_height
            → target.pixel last px py ≡ paint ink px py draws (target.pixel t px py))
  unfolding draw_all paint
  draw_all-paint [] h t = (t, refl, λ px py hx hy. refl)
  draw_all-paint (d ∷ draws) h t =
      let (next, e, one) = Calm-Draws d h.0 t in
      let (last, f, rest) = draw_all-paint draws h.1 next in
      (
        last,
        ap (λ o. o >>= λ s. draw_all target draws s) e ∙ f,
        λ px py hx hy. rest px py hx hy ∙ ap (paint ink px py draws) (one px py hx hy),
      )

module _ (ink : Ink) (px py : ℕ) where
  pub paint-append :
      (xs ys : List Draw) (c : Color)
      → paint ink px py (xs ++ ys) c ≡ paint ink px py ys (paint ink px py xs c)
  unfolding paint
  paint-append [] ys c = refl
  paint-append (x ∷ xs) ys c = paint-append xs ys (paint_one ink px py x c)

  -- A text in a box does not ink what is outside the box.
  pub inked-outside :
      Bounded ink
      → (text : List ℕ) (x y w h : ℕ) → glyph_width * length text ≤ w
      → glyph_height ≤ h
      → inside x y w h px py ≡ false
      → inked ink text x y px py ≡ false
  inked-outside bounded text x y w h wide high out = ground (arith, bounded text (px - x) (py - y))
