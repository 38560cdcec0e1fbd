-- ===== src/Daemon/Handoff/Described.antt =====
-- What the receiver of a handoff is to have of a tab, and that it is what it has.
use worminal.Prelude.{
  ◌==◌, ℕ, zero, suc, ◌≡◌, refl, ap, ◌∙◌, Bool, true, false, not, Option, none, some, List, [], ◌∷◌,
  if◌then◌else◌, map, arith,
}
use worminal.Workspace.Launch.{until_nul}
use worminal.Daemon.Handoff.Tab.{input_queue, Tab, Metadata, some_color, any_color}
use worminal.Daemon.Handoff.Send.{or_default, is_browser, color_at, color_fields}

-- The bytes before the first zero.
abbrev before_nul : List ℕ → List ℕ
before_nul [] = []
before_nul (zero ∷ bytes) = []
before_nul (suc byte ∷ bytes) = suc byte ∷ before_nul bytes

abbrev cut_url : Option (List ℕ) → Option (List ℕ)
cut_url none = none
cut_url (some url) = some (before_nul url)

abbrev has_url : Option (List ℕ) → Bool
has_url none = false
has_url (some url) = true

-- An empty colour is no colour.
abbrev unless_empty : List ℕ → Option (List ℕ)
unless_empty [] = none
unless_empty (byte ∷ bytes) = some (byte ∷ bytes)

abbrev cut_color : Option (List ℕ) → Option (List ℕ)
cut_color none = none
cut_color (some text) = unless_empty (before_nul text)

-- So many colours, those that there are first.
abbrev cut_colors : ℕ → List (Option (List ℕ)) → List (Option (List ℕ))
cut_colors zero colors = []
cut_colors (suc names) [] = none ∷ cut_colors names []
cut_colors (suc names) (color ∷ colors) = cut_color color ∷ cut_colors names colors

abbrev is_bare : List (Option (List ℕ)) → Bool
is_bare [] = true
is_bare (none ∷ colors) = is_bare colors
is_bare (some color ∷ colors) = false

abbrev unless_bare : List (Option (List ℕ)) → Option (List (Option (List ℕ)))
unless_bare colors = if is_bare colors then none else some colors

abbrev cut_palette : ℕ → Option (List (Option (List ℕ))) → Option (List (Option (List ℕ)))
cut_palette names none = none
cut_palette names (some colors) = unless_bare (cut_colors names colors)

-- The tab that the receiver is to have.
abbrev cut_tab : ℕ → Tab → Tab
cut_tab color_names tab = record {
  id = tab.id;
  title = before_nul tab.title;
  initial_title = before_nul tab.initial_title;
  directory = before_nul tab.directory;
  clipboard = before_nul tab.clipboard;
  url = cut_url tab.url;
  colors = cut_palette color_names tab.colors;
  mode = tab.mode;
  cursor = tab.cursor;
}

abbrev pub cut_metadata : ℕ → Tab → ℕ → List ℕ → Metadata
cut_metadata color_names tab pid input = record {
  tab = cut_tab color_names tab;
  browser = has_url tab.url;
  child = pid;
  input = record { bytes = input; sent = 0; limit = input_queue };
}

until_nul-before_nul : (s : List ℕ) → until_nul s ≡ before_nul s
unfolding until_nul
until_nul-before_nul [] = refl
until_nul-before_nul (zero ∷ bytes) = refl
until_nul-before_nul (suc byte ∷ bytes) =
    let not_zero : (suc byte == 0) ≡ false = ground arith in
    rw (not_zero, until_nul-before_nul bytes) refl

-- The colours that the receiver has.
abbrev pub received_colors : List (List ℕ) → List (Option (List ℕ))
received_colors = map (λ text. some_color (until_nul text))

some_color-unless_empty : (s : List ℕ) → some_color s ≡ unless_empty s
unfolding some_color
some_color-unless_empty [] = refl
some_color-unless_empty (byte ∷ bytes) = refl

received_color :
    (color : Option (List ℕ)) → some_color (until_nul (or_default color)) ≡ cut_color color
unfolding some_color until_nul or_default
received_color none = refl
received_color (some text) =
    ap some_color (until_nul-before_nul text) ∙ some_color-unless_empty (before_nul text)

color_fields-shift :
    (color : Option (List ℕ)) (colors : List (Option (List ℕ))) (names index : ℕ)
    → color_fields (some (color ∷ colors)) names (suc index)
      ≡ color_fields (some colors) names index
unfolding color_fields color_at
color_fields-shift color colors zero index = refl
color_fields-shift color colors (suc names) index =
    ap (λ rest. color_at (some colors) index ∷ rest)
      (color_fields-shift color colors names (suc index))

received_colors-none :
    (names index : ℕ) → received_colors (color_fields none names index) ≡ cut_colors names []
unfolding color_fields color_at some_color until_nul
received_colors-none zero index = refl
received_colors-none (suc names) index =
    ap (λ rest. none ∷ rest) (received_colors-none names (suc index))

received_colors-nil :
    (names index : ℕ) → received_colors (color_fields (some []) names index) ≡ cut_colors names []
unfolding color_fields color_at some_color until_nul or_default
received_colors-nil zero index = refl
received_colors-nil (suc names) index =
    ap (λ rest. none ∷ rest) (received_colors-nil names (suc index))

received_colors-some :
    (names : ℕ) (colors : List (Option (List ℕ)))
    → received_colors (color_fields (some colors) names 0) ≡ cut_colors names colors
unfolding color_fields color_at
received_colors-some names [] = received_colors-nil names 0
received_colors-some zero (color ∷ colors) = refl
received_colors-some (suc names) (color ∷ colors) =
    rw
      (
        color_fields-shift color colors names 0,
        received_color color,
        received_colors-some names colors,
      )
      refl

any_color-is_bare : (colors : List (Option (List ℕ))) → any_color colors ≡ not (is_bare colors)
unfolding any_color
any_color-is_bare [] = refl
any_color-is_bare (none ∷ colors) = any_color-is_bare colors
any_color-is_bare (some color ∷ colors) = refl

cut_colors-nil : (names : ℕ) → is_bare (cut_colors names []) ≡ true
cut_colors-nil zero = refl
cut_colors-nil (suc names) = cut_colors-nil names

unless_any :
    (colors : List (Option (List ℕ)))
    → (if any_color colors then some colors else none) ≡ unless_bare colors
unless_any colors = rw (any_color-is_bare colors) (ground arith)

-- What the receiver takes for the palette is the palette that it is to have.
received_palette :
    (names : ℕ) (colors : Option (List (Option (List ℕ))))
    → (let received = received_colors (color_fields colors names 0) in
        if any_color received then some received else none)
      ≡ cut_palette names colors
received_palette names none =
    ap (λ colors. if any_color colors then some colors else none) (received_colors-none names 0)
    ∙ unless_any (cut_colors names [])
    ∙ rw (cut_colors-nil names) refl
received_palette names (some colors) =
    ap (λ colors. if any_color colors then some colors else none)
      (received_colors-some names colors)
    ∙ unless_any (cut_colors names colors)

-- What the receiver makes of a tab, by the code that sends and receives it.
abbrev seen_tab : ℕ → Tab → Tab
seen_tab color_names tab =
    let colors = received_colors (color_fields tab.colors color_names 0) in
    record {
      id = tab.id;
      title = until_nul tab.title;
      initial_title = until_nul tab.initial_title;
      directory = until_nul tab.directory;
      clipboard = until_nul tab.clipboard;
      url = if not (is_browser tab.url == 0) then some (until_nul (or_default tab.url)) else none;
      colors = if any_color colors then some colors else none;
      mode = tab.mode;
      cursor = tab.cursor;
    }

abbrev pub seen_metadata : ℕ → Tab → ℕ → List ℕ → Metadata
seen_metadata color_names tab pid input = record {
  tab = seen_tab color_names tab;
  browser = not (is_browser tab.url == 0);
  child = pid;
  input = record { bytes = input; sent = 0; limit = input_queue };
}

received_url :
    (url : Option (List ℕ))
    → (if not (is_browser url == 0) then some (until_nul (or_default url)) else none) ≡ cut_url url
unfolding is_browser or_default
received_url none = refl
received_url (some url) = ap some (until_nul-before_nul url)

received_browser : (url : Option (List ℕ)) → not (is_browser url == 0) ≡ has_url url
unfolding is_browser
received_browser none = refl
received_browser (some url) = refl

pub seen_metadata-cut_metadata :
    (color_names : ℕ) (tab : Tab) (pid : ℕ) (input : List ℕ)
    → seen_metadata color_names tab pid input ≡ cut_metadata color_names tab pid input
seen_metadata-cut_metadata color_names tab pid input =
    rw
      (
        received_url tab.url,
        received_browser tab.url,
        received_palette color_names tab.colors,
        until_nul-before_nul tab.title,
        until_nul-before_nul tab.initial_title,
        until_nul-before_nul tab.directory,
        until_nul-before_nul tab.clipboard,
      )
      refl
