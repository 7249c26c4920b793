-- ===== src/Subscriptions/Formats.antt =====
-- The formats, ports and failures of internal/subscriptions/subscriptions.go.
use Prim.Native.String.{String}
use vetka_backend_panel.Prelude.{
  Bool, true, false, ◌≡◌, refl, Option, none, some, List, [], ◌∷◌, ◌==◌, arith, inl, inr, ◌⊎◌,
  if◌then◌else◌,
}
use vetka_backend_panel.Prelude.Int.{ℤ, pos, ◌<ℤ◌}
use vetka_backend_panel.Prelude.Text.{to_lower, trim_space}
use vetka_backend_panel.Subscriptions.Fields.{first_mieru_port, port_or, or_whole, atoi}
use vetka_backend_panel.Subscriptions.Url.{before_first}
use vetka_backend_panel.Subscriptions.Service

abbrev pub formats : List String
formats = "json" ∷ "hiddify" ∷ "hiddify-json" ∷ "raw" ∷ "mierus" ∷ "naive" ∷ []

-- The text is one of the list.
abbrev pub OneOf : List String → String → Type 0
OneOf [] f = ⊥
OneOf (x ∷ xs) f = (f ≡ x) ⊎ OneOf xs f

OneOf-if :
    (xs : List String) (b : Bool) (f g : String)
    → OneOf xs f
    → OneOf xs g
    → OneOf xs (if b then f else g)
OneOf-if xs true f g h k = h
OneOf-if xs false f g h k = k

format_of-OneOf : (f : String) → OneOf formats (Service.format_of f)
unfolding Service.format_of
format_of-OneOf f = OneOf-if formats (f == "hiddify") _ _ (inr (inl refl)) (
    OneOf-if formats (f == "hiddify-json") _ _ (inr (inr (inl refl))) (
      OneOf-if formats (f == "raw") _ _ (inr (inr (inr (inl refl)))) (
        OneOf-if formats (f == "mierus") _ _ (inr (inr (inr (inr (inl refl))))) (
          OneOf-if formats (f == "naive") _ _ (inr (inr (inr (inr (inr (inl refl))))))
            (inl refl)))))

format_fixed : (f : String) → OneOf formats f → Service.normalize_format f ≡ f
unfolding Service.normalize_format
format_fixed f (inl e) = rw e refl
format_fixed f (inr (inl e)) = rw e refl
format_fixed f (inr (inr (inl e))) = rw e refl
format_fixed f (inr (inr (inr (inl e)))) = rw e refl
format_fixed f (inr (inr (inr (inr (inl e))))) = rw e refl
format_fixed f (inr (inr (inr (inr (inr (inl e)))))) = rw e refl
format_fixed f (inr (inr (inr (inr (inr (inr x)))))) = absurd x

normalize_format-OneOf : (f : String) → OneOf formats (Service.normalize_format f)
unfolding Service.normalize_format
normalize_format-OneOf f = format_of-OneOf (to_lower (trim_space f))

-- Whatever is asked for, the normalised format is one of the six formats, and normalising it again
-- changes nothing.
pub normalize_format_lem :
    (f : String)
    → OneOf formats (Service.normalize_format f)
      × (Service.normalize_format (Service.normalize_format f) ≡ Service.normalize_format f)
normalize_format_lem f =
    (normalize_format-OneOf f, format_fixed (Service.normalize_format f) (normalize_format-OneOf f))

port_or-positive : (p : Option ℤ) → pos 0 <ℤ port_or p
port_or-positive none = omega arith
port_or-positive (some p) = ground arith

positive_if : (b : Bool) (x y : ℤ) → pos 0 <ℤ x → pos 0 <ℤ y → pos 0 <ℤ (if b then x else y)
positive_if true x y h k = h
positive_if false x y h k = k

-- The port of a Mieru outbound is positive, whatever the port ranges of the node are.
pub first_mieru_port-positive : (ports : List String) → pos 0 <ℤ first_mieru_port ports
unfolding first_mieru_port
first_mieru_port-positive [] = omega arith
first_mieru_port-positive (p ∷ ps) =
    positive_if (trim_space p == "") _ _ (omega arith)
      (port_or-positive (atoi (or_whole (trim_space p) (before_first b'-' (trim_space p)))))
