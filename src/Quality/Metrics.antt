-- ===== src/Quality/Metrics.antt =====
-- case_metrics of scanner/src/aegify/quality/owasp.py. Floating-point arithmetic is a parameter:
-- the quotient of two counts, and the statistics that take roots.
use aegify.Base.{ℕ, suc, ◌+◌, ◌*◌, Option, none, some, List, [], ◌∷◌, ◌==◌, if◌then◌else◌}
use aegify.Quality.Cases.{Outcome}

pub record Floats : Type 1 where
  pub Float : Type 0
  -- `a / b`, for b not 0
  pub divide : ℕ → ℕ → Float
  pub minus : Float → Float → Float
  -- `(a + b) / 2`
  pub mean : Float → Float → Float
  -- The correlation of the counts tp, fp, fn and tn, where its denominator is not 0.
  pub correlation : ℕ → ℕ → ℕ → ℕ → Float
  -- The two ends of the interval of `_wilson`, for trials other than 0.
  pub wilson : ℕ → ℕ → Float × Float

-- `Counter(outcomes)`
pub record Counts : Type 0 where
  pub tp : ℕ
  pub fp : ℕ
  pub fn : ℕ
  pub tn : ℕ
  pub unscored : ℕ

abbrev count_one : Outcome → Counts → Counts
count_one Outcome.tp k = record k { tp = suc k.tp }
count_one Outcome.fp k = record k { fp = suc k.fp }
count_one Outcome.fn k = record k { fn = suc k.fn }
count_one Outcome.tn k = record k { tn = suc k.tn }
count_one Outcome.unscored k = record k { unscored = suc k.unscored }

unfoldable pub counter : List Outcome → Counts
counter [] = record { tp = 0; fp = 0; fn = 0; tn = 0; unscored = 0 }
counter (o ∷ os) = count_one o (counter os)

module _ (floats : Floats) where
  pub record Metrics : Type 0 where
    pub true_positives : ℕ
    pub false_positives : ℕ
    pub false_negatives : ℕ
    pub true_negatives : ℕ
    pub scored_cases : ℕ
    pub unscored_cases : ℕ
    pub precision : Option floats.Float
    pub recall : Option floats.Float
    pub f1 : Option floats.Float
    pub accuracy : Option floats.Float
    pub false_positive_rate : Option floats.Float
    pub balanced_accuracy : Option floats.Float
    pub mcc : Option floats.Float
    pub precision_wilson_95 : Option (floats.Float × floats.Float)
    pub recall_wilson_95 : Option (floats.Float × floats.Float)

  unfoldable pub ratio : ℕ → ℕ → Option floats.Float
  ratio numerator denominator =
      if denominator == 0 then none else some (floats.divide numerator denominator)

  unfoldable interval : ℕ → ℕ → Option (floats.Float × floats.Float)
  interval successes trials = if trials == 0 then none else some (floats.wilson successes trials)

  abbrev mean_of : Option floats.Float → Option floats.Float → Option floats.Float
  mean_of none b = none
  mean_of (some a) none = none
  mean_of (some a) (some b) = some (floats.mean a b)

  unfoldable pub case_metrics : List Outcome → Metrics
  unfolding ratio interval
  case_metrics outcomes =
      let k = counter outcomes in
      let tpr = ratio k.tp (k.tp + k.fn) in
      let tnr = ratio k.tn (k.tn + k.fp) in
      record {
        true_positives = k.tp;
        false_positives = k.fp;
        false_negatives = k.fn;
        true_negatives = k.tn;
        scored_cases = k.tp + k.fp + k.fn + k.tn;
        unscored_cases = k.unscored;
        precision = ratio k.tp (k.tp + k.fp);
        recall = tpr;
        f1 = ratio (2 * k.tp) (2 * k.tp + k.fp + k.fn);
        accuracy = ratio (k.tp + k.tn) (k.tp + k.fp + k.fn + k.tn);
        false_positive_rate = ratio k.fp (k.fp + k.tn);
        balanced_accuracy = mean_of tpr tnr;
        mcc =
            if (k.tp + k.fp) * (k.tp + k.fn) * (k.tn + k.fp) * (k.tn + k.fn) == 0
            then none
            else some (floats.correlation k.tp k.fp k.fn k.tn);
        precision_wilson_95 = interval k.tp (k.tp + k.fp);
        recall_wilson_95 = interval k.tp (k.tp + k.fn);
      }
