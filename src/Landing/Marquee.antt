-- ===== src/Landing/Marquee.antt =====
-- ui/components/landing/marquee-section.tsx: the rows of platforms that move past.
pub mod Filling
pub mod Motion
pub mod Seam
use edge_guardian.Base.{
  ℕ, zero, suc, Option, none, some, List, [], ◌∷◌, ◌++◌, Text, codes, length, ltb, if◌then◌else◌,
  lookup, get_or, truthy,
}

pub record PlatformItem : Type 0 where
  pub name : Text
  pub detail : Option Text
  pub icon : Text

abbrev pub plain : Text → Text → PlatformItem
plain name icon = record { name = name; detail = none; icon = icon }

abbrev pub detailed : Text → Text → Text → PlatformItem
detailed name detail icon = record { name = name; detail = some detail; icon = icon }

abbrev pub os_items : List PlatformItem
os_items =
    plain (codes "Linux") (codes "linux")
    ∷ plain (codes "Raspberry Pi") (codes "raspberrypi")
    ∷ plain (codes "Ubuntu") (codes "ubuntu")
    ∷ plain (codes "Debian") (codes "debian")
    ∷ plain (codes "Alpine Linux") (codes "alpine")
    ∷ plain (codes "NVIDIA Jetson") (codes "nvidia")
    ∷ plain (codes "Intel NUC") (codes "intel")
    ∷ plain (codes "ESP32") (codes "espressif")
    ∷ plain (codes "Android") (codes "android")
    ∷ []

abbrev pub arch_items : List PlatformItem
arch_items =
    detailed (codes "ARM64") (codes "aarch64") (codes "arm")
    ∷ detailed (codes "ARMv7") (codes "armhf") (codes "arm")
    ∷ detailed (codes "x86_64") (codes "amd64") (codes "intel")
    ∷ detailed (codes "RISC-V") (codes "riscv64") (codes "riscv")
    ∷ []

-- `while (repeated.length < 24) repeated.push(...items);` in at most `fuel` rounds.
unfoldable pub fill {ℓ} : {A : Type ℓ} → ℕ → List A → List A → Option (List A)
fill zero items repeated = if ltb (length repeated) 24 then none else some repeated
fill (suc fuel) items repeated =
    let rest = fill fuel items (repeated ++ items) in
    if ltb (length repeated) 24 then rest else some repeated

-- What the loop leaves; each round adds an item, so that 24 rounds are enough if there is one.
unfoldable pub repeated {ℓ} : {A : Type ℓ} → List A → Option (List A)
unfolding fill
repeated items = fill 24 items []

-- The row shows what the loop leaves, twice.
unfoldable pub track {ℓ} : {A : Type ℓ} → List A → Option (List A)
unfolding repeated
track items = elim (repeated items) [ none ↦ none | some r ↦ some (r ++ r) ]

-- The icons that are files, and the colours of the others.
abbrev pub icon_file : List (Text × Text)
icon_file =
    (codes "linux", codes "/icons/linux.svg")
    ∷ (codes "raspberrypi", codes "/icons/raspberrypi.svg")
    ∷ []

abbrev pub icon_color : List (Text × Text)
icon_color =
    (codes "ubuntu", codes "text-[#E95420]")
    ∷ (codes "debian", codes "text-[#A81D33] dark:text-[#D64468]")
    ∷ (codes "alpine", codes "text-[#0D597F]")
    ∷ (codes "nvidia", codes "text-[#76B900]")
    ∷ (codes "intel", codes "text-[#0071C5]")
    ∷ (codes "arm", codes "text-[#0091BD]")
    ∷ (codes "espressif", codes "text-[#E7352C]")
    ∷ (codes "android", codes "text-[#34A853]")
    ∷ (codes "riscv", codes "text-[#283272] dark:text-[#6478D8]")
    ∷ []

pub data PillIcon : Type 0 where
  image : (file : Text) → PillIcon
  glyph : (path color : Text) → PillIcon

pub record Pill : Type 0 where
  pub icon : PillIcon
  pub label : Text
  pub detail : Option Text

-- The picture of an item; `PLATFORM_ICONS`, the outlines of the glyphs, is a parameter.
unfoldable pub pill_icon : (Text → Option Text) → Text → PillIcon
unfolding lookup
pill_icon platform_icons icon = elim (lookup icon icon_file) [
  | some file ↦ image file
  | none ↦
      glyph (get_or (platform_icons icon) [])
        (get_or (lookup icon icon_color) (codes "text-foreground"))
]

-- `item.detail && …`
abbrev pub shown_detail : Option Text → Option Text
shown_detail none = none
shown_detail (some d) = if truthy d then some d else none

unfoldable pub render_pill : (Text → Option Text) → PlatformItem → Pill
unfolding pill_icon
render_pill platform_icons item = record {
  icon = pill_icon platform_icons item.icon;
  label = item.name;
  detail = shown_detail item.detail;
}

-- The two rows, with their directions and base speeds.
abbrev pub marquee_rows : List (List PlatformItem × Motion.Direction × ℕ)
marquee_rows = (os_items, Motion.left, 45) ∷ (arch_items, Motion.right, 40) ∷ []
