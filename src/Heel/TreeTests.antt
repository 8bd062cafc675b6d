-- ===== src/Heel/TreeTests.antt =====
-- Descriptions as trees in memory.
use margot_project.Base.{
  ℕ, zero, suc, ◌+◌, true, false, if◌then◌else◌, [], ◌∷◌, map, length, Option, none, some, ◌≡◌,
  refl, ap,
}
use margot_project.Heel.Names.{Text}
use margot_project.Heel.Models.{
  immediate, variable, MonitorModel, KnobModel, MetricModel, AgoraModel, FeatureModel,
  less_or_equal, dont_care,
}
use margot_project.Heel.States.{
  less, greater, minimize, maximize, simple, linear, unknown, metric, StateModel, has_direction,
  has_type,
}
use margot_project.Heel.Trees.{PropertyTree, codes}
use margot_project.Heel.Trees.Memory.{memory, memory-IsLawful}
use margot_project.Heel.Composers.{
  compose_monitor, compose_knob, compose_metric, compose_feature, compose_agora,
}
use margot_project.Heel.Parsers.{
  parse_monitor, parse_knob, parse_metric, parse_feature, parse_agora,
}
use margot_project.Heel.RoundTrip.{
  new_knob, new_monitor, new_metric, new_feature, new_agora, Conversions, AreFaithful, is_capital,
}
use margot_project.Heel.RoundTrip.Parts.{parse_monitor-compose_monitor}
use margot_project.Heel.StateTrees.{compose_state, parse_state}
use margot_project.Heel.StateTrees.Elements.{new_state, read_constraint}
use margot_project.Heel.StateTrees.Lost.{parse_state-compose_state}

-- A number in strokes
abbrev strokes : ℕ → Text
strokes zero = []
strokes (suc n) = 49 ∷ strokes n

abbrev count_strokes : Text → Option ℕ
count_strokes [] = none
count_strokes (c ∷ s) = some (length s)

abbrev conversions : Conversions
conversions = record {
  bool_text = λ b. if b then codes "true" else codes "false";
  size_text = λ n. 48 ∷ strokes n;
  lexical_cast = count_strokes;
  to_lower = λ c. if is_capital c then c + 32 else c;
}

length-strokes : (n : ℕ) → length (strokes n) ≡ n
length-strokes zero = refl
length-strokes (suc n) = ap suc (length-strokes n)

conversions-AreFaithful : AreFaithful conversions
conversions-AreFaithful = record {
  yes = refl;
  no = refl;
  some_digits = λ n. refl;
  digits = λ n. ap some (length-strokes n);
  keeps_small = λ c e. ap (λ b. if b then c + 32 else c) e;
}

abbrev timer : MonitorModel
timer = record {
  name = codes "timer";
  type = codes "time";
  requested_statistics = codes "average" ∷ [];
  initialization_parameters =
      record { type = immediate; content = codes "5"; value_type = [] } ∷ [];
  start_parameters =
      record { type = variable; content = codes "input"; value_type = codes "int" } ∷ [];
  stop_parameters = [];
}

abbrev threads : KnobModel
threads = record { name = codes "threads"; type = codes "int"; values = [] }

abbrev energy : MetricModel
energy = record {
  name = codes "energy";
  type = codes "float";
  distribution = true;
  prediction_plugin = [];
  monitor_name = codes "timer";
  inertia = 3;
  prediction_parameters = record { key = codes "degree"; value = codes "2" } ∷ [];
}

abbrev size : FeatureModel
size = record { name = codes "size"; type = codes "int"; comparison = less_or_equal }

abbrev settings : AgoraModel
settings = record new_agora {
  url = codes "tcp://host";
  doe_parameters = record { key = codes "seed"; value = codes "7" } ∷ [];
}

parse_monitor-compose_monitor_example :
    (parse_monitor memory new_monitor (compose_monitor memory timer (PropertyTree.empty memory))
      ≡ some timer)
    × (parse_knob memory
          (λ t a b c. none)
          new_knob
          (compose_knob memory threads (PropertyTree.empty memory))
        ≡ some threads)
    × (parse_metric memory conversions.lexical_cast conversions.to_lower (new_metric false 9) (
          compose_metric memory conversions.bool_text conversions.size_text energy
            (PropertyTree.empty memory))
        ≡ some energy)
    × (parse_feature memory conversions.to_lower
          (new_feature dont_care)
          (compose_feature memory size (PropertyTree.empty memory))
        ≡ some size)
    × (parse_agora memory new_agora (compose_agora memory settings (PropertyTree.empty memory))
        ≡ some settings)
parse_monitor-compose_monitor_example =
    parse_monitor-compose_monitor memory memory-IsLawful conversions conversions-AreFaithful
      (λ t a b c. none) false 9 dont_care timer threads energy size settings
      (((refl, refl), refl), (refl, refl), refl) (refl, refl) ((refl, refl), refl)

-- A state that maximises a metric under a constraint
abbrev fast : StateModel
fast = record {
  name = codes "fast";
  direction = maximize;
  combination = simple;
  rank_fields = record { name = codes "throughput"; kind = metric; coefficient = codes "1" } ∷ [];
  constraints =
      record {
        name = codes "energy";
        cfun = less;
        value = codes "5";
        kind = metric;
        confidence = codes "1";
      }
      ∷ [];
}

parse_state-compose_state_example :
    parse_state memory conversions.to_lower greater unknown
      (new_state maximize simple)
      (compose_state memory fast (PropertyTree.empty memory))
    ≡ some (record {
      name = codes "fast";
      direction = minimize;
      combination = linear;
      rank_fields =
          record { name = codes "throughput"; kind = unknown; coefficient = codes "1" } ∷ [];
      constraints = map (read_constraint unknown) fast.constraints;
    })
unfolding has_direction has_type
parse_state-compose_state_example =
    parse_state-compose_state memory memory-IsLawful conversions conversions-AreFaithful greater
      unknown (new_state maximize simple) fast refl refl refl (refl, refl)
