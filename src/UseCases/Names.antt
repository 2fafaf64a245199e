-- ===== src/UseCases/Names.antt =====
-- The short names of use cases (internal/analysis/usecases.go).
use eebus_tracer.Prelude.{String, List, [], ◌∷◌, none, some, string_eq}
use eebus_tracer.Prelude.Maps.{lookup}

-- `useCaseAbbreviations`
abbrev pub use_case_abbreviations : List (String × String)
use_case_abbreviations =
    ("limitationOfPowerConsumption", "LPC")
    ∷ ("limitationOfPowerProduction", "LPP")
    ∷ ("monitoringOfPowerConsumption", "MPC")
    ∷ ("monitoringOfGridConnectionPoint", "MGCP")
    ∷ ("evseCommissioningAndConfiguration", "EVSECC")
    ∷ ("evChargingSummary", "EVCS")
    ∷ ("evCommissioningAndConfiguration", "EVCC")
    ∷ ("measurementOfElectricityDuringEvCharging", "MOEEC")
    ∷ ("optimizationOfSelfConsumptionDuringEvCharging", "OSCEV")
    ∷ ("overloadProtectionByEvChargingCurrentCurtailment", "OPEV")
    ∷ ("dynamicBidirectionalEvCharging", "DBEVC")
    ∷ ("coordinatedEvCharging", "CEC")
    ∷ ("configurationOfDhwSystemFunction", "CDSF")
    ∷ ("configurationOfDhwTemperature", "CDT")
    ∷ ("configurationOfRoomCoolingSystemFunction", "CRCSF")
    ∷ ("configurationOfRoomCoolingTemperature", "CRCT")
    ∷ ("configurationOfRoomHeatingSystemFunction", "CRHSF")
    ∷ ("configurationOfRoomHeatingTemperature", "CRHT")
    ∷ ("monitoringOfBattery", "MOB")
    ∷ ("monitoringOfDhw", "MODHW")
    ∷ ("monitoringOfDhwSystemFunction", "MODSF")
    ∷ ("monitoringOfDhwTemperature", "MODT")
    ∷ ("monitoringOfInverter", "MOI")
    ∷ ("monitoringOfPvString", "MOPVS")
    ∷ ("monitoringOfRoomCoolingSystemFunction", "MORCSF")
    ∷ ("monitoringOfRoomCoolingTemperature", "MORCT")
    ∷ ("monitoringOfRoomHeatingSystemFunction", "MORHSF")
    ∷ ("monitoringOfRoomHeatingTemperature", "MORHT")
    ∷ ("visualizationOfAggregatedBatteryData", "VABD")
    ∷ ("visualizationOfAggregatedPhotovoltaicData", "VAPD")
    ∷ ("flexibleStartOfEnergyConsumer", "FSEC")
    ∷ ("flexibleStartOfEnergyProduction", "FSEP")
    ∷ ("monitoringOfPowerConsumptionOfDhwSystemFunction", "MOPCDSF")
    ∷ ("monitoringOfPowerConsumptionOfRoomCoolingSystemFunction", "MOPCRCSF")
    ∷ ("monitoringOfPowerConsumptionOfRoomHeatingSystemFunction", "MOPCRHSF")
    ∷ []

-- The short name, or the name itself where there is none.
unfoldable pub abbreviation_of : String → String
unfolding lookup
abbreviation_of name = elim (lookup name use_case_abbreviations) [ none ↦ name | some a ↦ a ]
