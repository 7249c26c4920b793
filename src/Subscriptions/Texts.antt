-- ===== src/Subscriptions/Texts.antt =====
-- internal/subscriptions/subscriptions.go: the bodies that are lines of text.
use Prim.Native.String.{String, ◌++◌}
use vetka_backend_panel.Prelude.{Bool, Option, List, [], ◌∷◌, ◌==◌, if◌then◌else◌}
use vetka_backend_panel.Prelude.Int.{ℤ}
use vetka_backend_panel.Prelude.Text.{trim_space, join}
use vetka_backend_panel.Prelude.Effects.{Result, ok, err}
use vetka_backend_panel.Subscriptions.Models.{AccessWithNode}
use vetka_backend_panel.Subscriptions.Fields.{itoa_ℤ}
use vetka_backend_panel.Subscriptions.Bodies.{
  profile_title_base64, build_naive_uri, build_naive_hiddify_uri, build_mieru_uri,
}

abbrev pub no_supported : String
no_supported = "no supported nodes assigned"

abbrev pub no_mieru : String
no_mieru = "no mieru nodes assigned"

abbrev pub no_naive : String
no_naive = "no naive nodes assigned"

abbrev pub has_protocol : String → AccessWithNode → Bool
has_protocol protocol a = a.node_protocol_type == protocol

abbrev pub lines_or : String → List String → Result String
lines_or e [] = err e
lines_or e (l ∷ ls) = ok (join (l ∷ ls) "\n")

-- The lines after the title, which is there in any case.
abbrev pub titled : String → List String → Result String
titled title [] = err no_supported
titled title (l ∷ ls) = ok (trim_space (join (title ∷ l ∷ ls) "\n"))

module _ (parse : String → Option (String × String)) where
  unfoldable pub raw_lines : List AccessWithNode → List String
  unfolding build_naive_uri build_naive_hiddify_uri build_mieru_uri
  raw_lines [] = []
  raw_lines (a ∷ rows) =
      let later = raw_lines rows in
      if has_protocol "naive" a
      then ("# " ++ a.node_name)
        ∷ build_naive_hiddify_uri parse a
        ∷ build_naive_uri parse a
        ∷ ""
        ∷ later
      else if has_protocol "mieru" a
      then ("# " ++ a.node_name) ∷ build_mieru_uri parse a ∷ "" ∷ later
      else later

  unfoldable pub build_raw_all : List AccessWithNode → String → ℤ → String
  unfolding raw_lines profile_title_base64 join trim_space
  build_raw_all rows title hours = trim_space (
      join
        (("//profile-title: base64:" ++ profile_title_base64 title)
          ∷ ("//profile-update-interval: " ++ itoa_ℤ hours)
          ∷ "//subscription-userinfo: upload=0; download=0; total=0; expire=0"
          ∷ ""
          ∷ raw_lines rows)
        "\n")

  unfoldable pub hiddify_lines : List AccessWithNode → List String
  unfolding build_naive_hiddify_uri build_mieru_uri
  hiddify_lines [] = []
  hiddify_lines (a ∷ rows) =
      let later = hiddify_lines rows in
      if has_protocol "mieru" a
      then "" ∷ ("# " ++ a.node_name) ∷ build_mieru_uri parse a ∷ later
      else if has_protocol "naive" a
      then "" ∷ ("# " ++ a.node_name) ∷ build_naive_hiddify_uri parse a ∷ later
      else later

  unfoldable pub build_hiddify_all : List AccessWithNode → String → Result String
  unfolding hiddify_lines join trim_space
  build_hiddify_all rows title = titled ("# " ++ title) (hiddify_lines rows)

  unfoldable pub mieru_lines : List AccessWithNode → List String
  unfolding build_mieru_uri
  mieru_lines [] = []
  mieru_lines (a ∷ rows) =
      let later = mieru_lines rows in
      if has_protocol "mieru" a then build_mieru_uri parse a ∷ later else later

  unfoldable pub build_raw_mieru : List AccessWithNode → Result String
  unfolding mieru_lines join
  build_raw_mieru rows = lines_or no_mieru (mieru_lines rows)

  unfoldable pub naive_lines : List AccessWithNode → List String
  unfolding build_naive_hiddify_uri
  naive_lines [] = []
  naive_lines (a ∷ rows) =
      let later = naive_lines rows in
      if has_protocol "naive" a then build_naive_hiddify_uri parse a ∷ later else later

  unfoldable pub build_raw_naive : List AccessWithNode → Result String
  unfolding naive_lines join
  build_raw_naive rows = lines_or no_naive (naive_lines rows)
