-- ===== src/Display/Target.antt =====
-- What the display code asks of embedded-graphics and of the TFT's driver: the calls that it makes on
-- a `DrawTarget`, in their order. The driver itself is a parameter, `DrawTarget`.
use golfer.Prelude.{
  ℕ, ◌+◌, ◌-◌, ◌*◌, ◌<◌, ◌≡◌, Bool, true, ◌&&◌, Option, none, some, List, [], ◌∷◌, ◌>>=◌, length,
  ltb, leb, if◌then◌else◌,
}

pub data Color : Type 0 where
  black white yellow green blue : Color

-- `draw_text` is `Text::with_baseline(text, point, style, Baseline::Top).draw(target)`, with the point
-- and the color of the style, whose font is FONT_6X10; `panicked` is an `unwrap` of an error.
pub data Draw : Type 0 where
  clear : Color → Draw
  fill_solid : ℕ → ℕ → ℕ → ℕ → Color → Draw
  draw_text : List ℕ → ℕ → ℕ → Color → Draw
  panicked : Draw

-- `write!` of a whole line to an empty `String` of a capacity, and then its use.
abbrev pub with_line : ℕ → List ℕ → List Draw → List Draw
with_line capacity line draws = if leb (length line) capacity then draws else panicked ∷ []

-- A target: its three operations, none for an error, and the pixel at a place of the panel.
pub record DrawTarget (T : Type 0) : Type 0 where
  pub clear_to : T → Color → Option T
  pub fill : T → ℕ → ℕ → ℕ → ℕ → Color → Option T
  pub write_text : T → List ℕ → ℕ → ℕ → Color → Option T
  pub pixel : T → ℕ → ℕ → Color

module _ {T : Type 0} (target : DrawTarget T) where
  abbrev pub draw : Draw → T → Option T
  draw (clear color) t = target.clear_to t color
  draw (fill_solid x y w h color) t = target.fill t x y w h color
  draw (draw_text text x y color) t = target.write_text t text x y color
  draw panicked t = none

  -- The whole sequence; an error stops it, since its `unwrap` panics.
  unfoldable pub draw_all : List Draw → T → Option T
  draw_all [] t = some t
  draw_all (d ∷ draws) t = draw d t >>= λ next. draw_all draws next

abbrev pub glyph_width : ℕ
glyph_width = 6

abbrev pub glyph_height : ℕ
glyph_height = 10

abbrev pub panel_width : ℕ
panel_width = 240

abbrev pub panel_height : ℕ
panel_height = 320

abbrev pub inside : ℕ → ℕ → ℕ → ℕ → ℕ → ℕ → Bool
inside x y w h px py = leb x px && ltb px (x + w) && (leb y py && ltb py (y + h))

-- Whether a text in FONT_6X10 inks the pixel at an offset from its point.
abbrev pub Ink : Type 0
Ink = List ℕ → ℕ → ℕ → Bool

-- The ink of a text that stands at a point, at a pixel.
abbrev pub inked : Ink → List ℕ → ℕ → ℕ → ℕ → ℕ → Bool
inked ink text x y px py = leb x px && leb y py && ink text (px - x) (py - y)

-- What an operation does to the color of one pixel.
abbrev pub paint_one : Ink → ℕ → ℕ → Draw → Color → Color
paint_one ink px py (clear color) before = color
paint_one ink px py (fill_solid x y w h color) before =
    if inside x y w h px py then color else before
paint_one ink px py (draw_text text x y color) before =
    if inked ink text x y px py then color else before
paint_one ink px py panicked before = before

unfoldable pub paint : Ink → ℕ → ℕ → List Draw → Color → Color
paint ink px py [] before = before
paint ink px py (d ∷ draws) before = paint ink px py draws (paint_one ink px py d before)

-- The text's ink is within the box of its glyphs.
abbrev pub Bounded : Ink → Type 0
Bounded ink =
    (text : List ℕ) (dx dy : ℕ)
    → ink text dx dy ≡ true
    → (dx < glyph_width * length text) × (dy < glyph_height)

module _ {T : Type 0} (target : DrawTarget T) (ink : Ink) where
  -- An operation succeeds, and does to the pixels of the panel what embedded-graphics documents.
  abbrev pub Draws : Draw → Type 0
  Draws d =
      (t : T)
      → (next : T) × (draw target d t ≡ some next)
        × ((px py : ℕ)
            → px < panel_width
            → py < panel_height
            → target.pixel next px py ≡ paint_one ink px py d (target.pixel t px py))

  pub record Faithful : Type 0 where
    pub bounded : Bounded ink
    pub clears : (color : Color) → Draws (clear color)
    pub fills : (x y w h : ℕ) (color : Color) → Draws (fill_solid x y w h color)
    pub writes : (text : List ℕ) (x y : ℕ) (color : Color) → Draws (draw_text text x y color)
