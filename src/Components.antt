-- ===== src/Components.antt =====
-- ui/components: the small parts that the pages are made of, as far as they decide or compute something.
-- A class list is what `cn` is given, before the library joins it. The formats of date-fns are
-- parameters.
pub mod Charts
use edge_guardian.Base.{
  ℕ, Bool, Option, none, some, List, [], ◌∷◌, ◌++◌, map, Text, codes, truthy, text_eq, get_or,
  if◌then◌else◌,
}

-- metric-card.tsx. A number that may be negative, with its digits as JavaScript prints them.
pub data Change : Type 0 where
  rise fall : (digits : Text) → Change

pub record Trend : Type 0 where
  pub value : Change
  pub label : Text

pub record MetricCardProps : Type 0 where
  pub title : Text
  pub value : Text
  pub description : Option Text
  pub icon_color : Option Text
  pub trend : Option Trend
  pub has_chart : Bool
  pub href : Option Text
  pub class_name : Option Text

pub record DrawnMetric : Type 0 where
  pub link : Option Text
  pub card_classes : List Text
  pub title : Text
  pub icon_classes : List Text
  pub icon_color : Text
  pub value : Text
  pub description : Option Text
  pub trend : Option (Text × Text)
  pub has_chart : Bool

-- A text that is there and not empty.
abbrev pub shown : Option Text → Option Text
shown none = none
shown (some t) = if truthy t then some t else none

abbrev pub class_of : Option Text → List Text
class_of none = []
class_of (some c) = c ∷ []

-- The colour of a trend, and its text: a plus stands before what is not negative.
unfoldable pub draw_trend : Trend → Text × Text
draw_trend t = elim (t.value) [
  | rise digits ↦
      (codes "text-emerald-500 dark:text-emerald-400", codes "+" ++ digits ++ codes "% " ++ t.label)
  | fall digits ↦
      (codes "text-red-500 dark:text-red-400", codes "-" ++ digits ++ codes "% " ++ t.label)
]

unfoldable pub metric_card : MetricCardProps → DrawnMetric
unfolding draw_trend
metric_card p =
    let color = get_or p.icon_color (codes "text-muted-foreground") in
    record {
      link = shown p.href;
      card_classes =
          codes "group relative overflow-hidden" ∷ (elim (shown p.href) [
            | none ↦ []
            | some h ↦ codes "cursor-pointer hover:border-primary/30" ∷ []
          ])
          ++ class_of p.class_name;
      title = p.title;
      icon_classes =
          codes "flex h-8 w-8 items-center justify-center rounded-lg bg-primary/10"
          ∷ (if text_eq color (codes "text-muted-foreground") then codes "bg-muted" ∷ [] else []);
      icon_color = color;
      value = p.value;
      description = shown p.description;
      trend = elim (p.trend) [ none ↦ none | some t ↦ some (draw_trend t) ];
      has_chart = p.has_chart;
    }

-- empty-state.tsx and page-header.tsx: the title, the description, and whether there is something below.
pub record Heading : Type 0 where
  pub title : Text
  pub description : Option Text
  pub has_children : Bool

unfoldable pub empty_state : Text → Option Text → Bool → Heading
empty_state title description children = record {
  title = title;
  description = shown description;
  has_children = children;
}

unfoldable pub page_header : Text → Option Text → Bool → Heading
page_header title description children = record {
  title = title;
  description = shown description;
  has_children = children;
}

-- logo.tsx
pub data LogoSize : Type 0 where
  sm md lg : LogoSize

-- The size of the icon, and the class of the word.
abbrev pub logo_sizes : LogoSize → ℕ × Text
logo_sizes sm = (24, codes "text-base")
logo_sizes md = (32, codes "text-lg")
logo_sizes lg = (40, codes "text-2xl")

-- The full logo: the size of its icon, and the class of its word unless it is collapsed.
unfoldable pub logo_full : Option LogoSize → Option Bool → ℕ × Option Text
logo_full size collapsed =
    let s = logo_sizes (get_or size md) in
    (s.0, if get_or collapsed Bool.false then none else some s.1)
