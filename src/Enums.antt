-- ===== src/Enums.antt =====
-- margot/include/margot/enums.hpp: the enumerations that select a statistic, a comparison
-- and a direction.

-- `enum class OperatingPointSegments`
pub data OperatingPointSegments : Type 0 where
  software_knobs metrics : OperatingPointSegments

-- `enum class FieldComposer`
pub data FieldComposer : Type 0 where
  geometric linear simple : FieldComposer

-- `enum class DataFunctions`
pub data DataFunctions : Type 0 where
  average standard_deviation maximum minimum : DataFunctions

-- `enum class ComparisonFunctions`
pub data ComparisonFunctions : Type 0 where
  less less_or_equal greater greater_or_equal : ComparisonFunctions

-- `enum class BoundType`
pub data BoundType : Type 0 where
  lower upper : BoundType

-- `enum class RankObjective`
pub data RankObjective : Type 0 where
  maximize minimize : RankObjective

-- `enum class FeatureComparison`
pub data FeatureComparison : Type 0 where
  less_or_equal greater_or_equal dont_care : FeatureComparison

-- `enum class FeatureDistanceType`
pub data FeatureDistanceType : Type 0 where
  euclidean normalized : FeatureDistanceType
