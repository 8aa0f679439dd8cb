-- ===== src/Logs/Ansi/Tests.antt =====
-- A coloured line, with a decimal reading of the numbers in a sequence.
use kubiq.Logs.Ansi.{strip, width, runs}
use kubiq.Logs.Ansi.Codes.{Code, unset, rgb}
use kubiq.Logs.Ansi.Scan.{texts, texts-runs}
use kubiq.Logs.Ansi.Colours.{IsColouredRun, runs-IsColoured}
use kubiq.Base.{
  ℕ, ◌+◌, ◌*◌, ◌-◌, ◌≡◌, refl, ◌&&◌, [], ◌∷◌, ◌++◌, none, some, leb, if◌then◌else◌, Text, codes,
  All, true, false,
}

abbrev decimal_from : ℕ → Text → Code
decimal_from value [] = some value
decimal_from value (c ∷ s) =
    let rest = decimal_from (value * 10 + (c - 48)) s in if leb 48 c && leb c 57 then rest else none

abbrev decimal : Text → Code
decimal = decimal_from 0

-- `a\e[1;38;2;300;0;7mbc\e[48;5;196md`
abbrev coloured : Text
coloured = codes "a" ++ 27 ∷ codes "[1;38;2;300;0;7mbc" ++ 27 ∷ codes "[48;5;196md"

line_strip : strip coloured ≡ codes "abcd"
unfolding strip
line_strip = refl

line_width : width coloured ≡ 4
unfolding width
line_width = refl

line_runs :
    runs decimal coloured
    ≡ record {
      text = codes "a";
      style = record {
        color = unset;
        background = unset;
        bold = false;
        dim = false;
        italic = false;
        underline = false;
      };
    }
      ∷ record {
        text = codes "bc";
        style = record {
          color = rgb 255 0 7;
          background = unset;
          bold = true;
          dim = false;
          italic = false;
          underline = false;
        };
      }
      ∷ record {
        text = codes "d";
        style = record {
          color = rgb 255 0 7;
          background = rgb 255 0 0;
          bold = true;
          dim = false;
          italic = false;
          underline = false;
        };
      }
      ∷ []
unfolding runs
line_runs = refl

texts-runs_example : texts (runs decimal coloured) ≡ strip coloured
texts-runs_example = texts-runs decimal coloured

runs-IsColoured_example : All IsColouredRun (runs decimal coloured)
runs-IsColoured_example = runs-IsColoured decimal coloured
